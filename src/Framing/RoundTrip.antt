-- ===== src/Framing/RoundTrip.antt =====
-- A frame that was written is read back, however the stream is cut into chunks.
use bke_worker.Framing.{encode_frame, fill, ok, Reader, read_body, next, u32_le, read_u32_le}
use bke_worker.Js.Value.{is_object, Value}
use bke_worker.Framing.Filling.{fill-ok, concat, IsSmall}
use bke_worker.Prelude.{
  ltb, ◌||◌, All, ◌==◌, drop-length_append, take-length_append, length-drop, take-append, drop-add,
  drop-append, take, drop, length-append, length, ◌++◌, Option, List, ℕ, true, false, [], ◌∷◌, some,
  ◌≡◌, refl, arith, ◌+◌, ◌≤◌, ◌<◌, ◌^◌, sym, ap, ◌∙◌,
}

read_u32_le-u32_le : (n : ℕ) (rest : List ℕ) → n < 2 ^ 32 → read_u32_le (u32_le n ++ rest) ≡ n
unfolding read_u32_le u32_le
read_u32_le-u32_le n rest h = omega arith

-- Four bytes decide the length.
pub read_u32_le-append : (p q : List ℕ) → 4 ≤ length p → read_u32_le (p ++ q) ≡ read_u32_le p
unfolding read_u32_le
read_u32_le-append [] q h = absurd (omega arith)
read_u32_le-append (a ∷ []) q h = absurd (omega arith)
read_u32_le-append (a ∷ b ∷ []) q h = absurd (omega arith)
read_u32_le-append (a ∷ b ∷ c ∷ []) q h = absurd (omega arith)
read_u32_le-append (a ∷ b ∷ c ∷ d ∷ p) q h = refl

abbrev pub frame : List ℕ → List ℕ
frame bytes = u32_le (length bytes) ++ bytes

module _ (bytes rest : List ℕ) where
  drop-frame : drop 4 (frame bytes ++ rest) ≡ bytes ++ rest
  unfolding u32_le
  drop-frame = refl

  length-frame : length (frame bytes ++ rest) ≡ length bytes + 4 + length rest
  unfolding u32_le
  length-frame = omega (arith, length-append bytes rest)

  -- What is pending, with more of the stream behind it, starts with the frame.
  module _ (p q : List ℕ) (same : p ++ q ≡ frame bytes ++ rest) where
    size_read : 4 ≤ length p → length bytes < 2 ^ 32 → read_u32_le p ≡ length bytes
    unfolding u32_le
    size_read four bounded =
        sym (read_u32_le-append p q four)
        ∙ ap read_u32_le same
        ∙ read_u32_le-u32_le (length bytes) (bytes ++ rest) bounded

    module _ (enough : length bytes + 4 ≤ length p) where
      behind_four : drop 4 p ++ q ≡ bytes ++ rest
      behind_four = sym (drop-append 4 p q (omega arith)) ∙ ap (drop 4) same ∙ drop-frame

      body_read : take (length bytes) (drop 4 p) ≡ bytes
      body_read =
          sym (take-append (length bytes) (drop 4 p) q (omega (arith, length-drop 4 p)))
          ∙ ap (take (length bytes)) behind_four
          ∙ take-length_append bytes rest

      rest_left : drop (length bytes + 4) p ++ q ≡ rest
      rest_left =
          ap (λ t. t ++ q) (drop-add (length bytes) 4 p)
          ∙ sym (drop-append (length bytes) (drop 4 p) q (omega (arith, length-drop 4 p)))
          ∙ ap (drop (length bytes)) behind_four
          ∙ drop-length_append bytes rest

pub size_ok :
    (maximum size : ℕ) → 0 < size → size ≤ maximum → (size == 0 || ltb maximum size) ≡ false
size_ok maximum size some_bytes fits = ground arith

encode_frame-ok :
    (stringify : Value → List ℕ) (maximum : ℕ) (value : Value) (written : List ℕ)
    → encode_frame stringify maximum value ≡ ok written
    → (0 < length (stringify value))
      × (length (stringify value) ≤ maximum)
      × (written ≡ frame (stringify value))
unfolding encode_frame
encode_frame-ok stringify maximum value written h = ground arith

module _ (parse : List ℕ → Option Value) (maximum : ℕ) (bytes : List ℕ) (value : Value)
    (parsed : parse bytes ≡ some value) (is_obj : is_object value ≡ true) where
  read_body-ok : read_body parse bytes ≡ ok value
  unfolding read_body
  read_body-ok = ground arith

  -- `next`, where both loops fill and the length is right
  next-ok :
      (r : Reader) (p p' : List ℕ) (cs cs' : List (List ℕ))
      → r.closed ≡ false
      → 0 < length bytes
      → length bytes ≤ maximum
      → fill maximum 4 r.pending r.chunks ≡ ok (p, cs)
      → read_u32_le p ≡ length bytes
      → fill maximum (length bytes + 4) p cs ≡ ok (p', cs')
      → take (length bytes) (drop 4 p') ≡ bytes
      → next parse maximum r
        ≡ ok (value, record { pending = drop (length bytes + 4) p'; chunks = cs'; closed = false })
  unfolding next
  next-ok r p p' cs cs' opened some_bytes fits first size second body = rw (
    opened,
    first,
    size,
    size_ok maximum (length bytes) some_bytes fits,
    second,
    size,
    body,
    read_body-ok,
    size,
    next,
  )

  next-frame :
      (r : Reader) (rest : List ℕ)
      → r.closed ≡ false
      → maximum < 2 ^ 32
      → 0 < length bytes
      → length bytes ≤ maximum
      → All (IsSmall maximum) r.chunks
      → r.pending ++ concat r.chunks ≡ frame bytes ++ rest
      → (r' : Reader) × (next parse maximum r ≡ ok (value, r'))
        × (r'.closed ≡ false)
        × All (IsSmall maximum) r'.chunks
        × (r'.pending ++ concat r'.chunks ≡ rest)
  next-frame r rest opened bounded some_bytes fits small holds =
      let total : length (r.pending ++ concat r.chunks) ≡ length bytes + 4 + length rest =
        ap length holds ∙ length-frame bytes rest in
      let (p, cs, first, same, four, smalls) =
        fill-ok maximum 4 (omega arith) r.pending r.chunks small (omega (arith, total)) in
      let (p', cs', second, same', enough, smalls') =
        fill-ok maximum (length bytes + 4) (omega (arith, fits)) p cs smalls
          (omega (arith, total, ap length same)) in
      let all = same' ∙ same ∙ holds in
      (
        record { pending = drop (length bytes + 4) p'; chunks = cs'; closed = false },
        next-ok r p p' cs cs' opened some_bytes fits first
            (size_read bytes rest p (concat cs) (same ∙ holds) four (omega (arith, fits, bounded)))
            second (body_read bytes rest p' (concat cs') all enough),
        refl,
        smalls',
        rest_left bytes rest p' (concat cs') all enough,
      )

-- A value that was written is read back, however the stream is cut into chunks that hold at most a
-- frame and a byte: the reader gives the value, and the stream goes on behind the frame. Of
-- `parse` it is assumed that it gives the value back from its bytes.
pub next-encode_frame :
    (stringify : Value → List ℕ) (parse : List ℕ → Option Value) (maximum : ℕ) (value : Value)
    (written rest : List ℕ) (r : Reader)
    → encode_frame stringify maximum value ≡ ok written
    → parse (stringify value) ≡ some value
    → is_object value ≡ true
    → maximum < 2 ^ 32
    → r.closed ≡ false
    → All (IsSmall maximum) r.chunks
    → r.pending ++ concat r.chunks ≡ written ++ rest
    → (r' : Reader) × (next parse maximum r ≡ ok (value, r'))
      × (r'.closed ≡ false)
      × All (IsSmall maximum) r'.chunks
      × (r'.pending ++ concat r'.chunks ≡ rest)
next-encode_frame stringify parse maximum value written rest r wrote parsed is_obj bounded opened
      small holds =
    let (some_bytes, fits, is_frame) = encode_frame-ok stringify maximum value written wrote in
    next-frame parse maximum (stringify value) value parsed is_obj r rest opened bounded some_bytes
      fits small (holds ∙ ap (λ t. t ++ rest) is_frame)
