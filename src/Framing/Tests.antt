-- ===== src/Framing/Tests.antt =====
-- The theorems about frames at an empty object whose frame comes in two chunks, and at half of it.
use bke_worker.Prelude.{
  if◌then◌else◌, ◌++◌, All, List, ℕ, true, false, [], ◌∷◌, Option, none, some, ◌≡◌, refl, arith,
  inr,
}
use bke_worker.Js.Value.{Value, is_object, obj, end}
use bke_worker.Text.{text_eq}
use bke_worker.Framing.Truncated.{next-truncated}
use bke_worker.Framing.Filling.{concat, IsSmall}
use bke_worker.Framing.RoundTrip.{next-encode_frame}
use bke_worker.Framing.{
  max_frame_bytes, u32_le, next, encode_frame, read_u32_le, Reader, ok, err, frame_truncated,
}

-- `{}` and its two bytes; every other text is refused.
abbrev stringify : Value → List ℕ
stringify v = b'{' ∷ b'}' ∷ []

abbrev parse : List ℕ → Option Value
parse bytes = if text_eq bytes (b'{' ∷ b'}' ∷ []) then some (obj end) else none

abbrev stream : Reader
stream = record {
  pending = [];
  chunks = (2 ∷ 0 ∷ []) ∷ (0 ∷ 0 ∷ b'{' ∷ b'}' ∷ 9 ∷ []) ∷ [];
  closed = false;
}

abbrev cut_stream : Reader
cut_stream = record { pending = []; chunks = (2 ∷ 0 ∷ 0 ∷ 0 ∷ b'{' ∷ []) ∷ []; closed = false }

abbrev empty_frame : List ℕ
empty_frame = 2 ∷ 0 ∷ 0 ∷ 0 ∷ b'{' ∷ b'}' ∷ []

empty_written : encode_frame stringify max_frame_bytes (obj end) ≡ ok empty_frame
unfolding encode_frame u32_le
empty_written = refl

empty_parsed : parse (stringify (obj end)) ≡ some (obj end)
unfolding text_eq
empty_parsed = refl

empty_is_object : is_object (obj end) ≡ true
unfolding is_object
empty_is_object = refl

next-encode_frame_example :
    (r' : Reader) × (next parse max_frame_bytes stream ≡ ok (obj end, r'))
    × (r'.closed ≡ false)
    × All (IsSmall max_frame_bytes) r'.chunks
    × (r'.pending ++ concat r'.chunks ≡ 9 ∷ [])
next-encode_frame_example =
    next-encode_frame stringify parse max_frame_bytes (obj end) empty_frame (9 ∷ []) stream
      empty_written empty_parsed empty_is_object (omega arith) refl (omega arith) refl

next-truncated_example : next parse max_frame_bytes cut_stream ≡ err frame_truncated
unfolding read_u32_le
next-truncated_example =
    next-truncated parse max_frame_bytes cut_stream refl (omega arith)
      (inr (omega arith, omega arith, omega arith, omega arith))
