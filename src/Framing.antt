-- ===== src/Framing.antt =====
-- Frames of Chrome's native messaging: `browser-extension/native-host/framing.mjs`. A buffer is a
-- list of bytes. `stringify` is `JSON.stringify` in UTF-8, and `parse` is the strict decoding of
-- UTF-8 and `JSON.parse`, `none` where one of them throws: both are arguments.
pub mod Filling
pub mod RoundTrip
pub mod Truncated
mod Tests
use bke_worker.Prelude.{
  drop, take, ◌/◌, ◌*◌, ◌++◌, ◌||◌, ◌+◌, ◌%◌, length, ltb, ◌==◌, List, ℕ, Bool, true, false, [],
  ◌∷◌, Option, none, some, if◌then◌else◌,
}
use bke_worker.Js.Value.{is_object, Value}

abbrev pub max_frame_bytes : ℕ
max_frame_bytes = 16384

pub data FrameError : Type 0 where
  frame_oversize frame_truncated frame_overflow frame_invalid_json : FrameError
  frame_invalid_object channel_closed : FrameError

pub data Framed {ℓ} (A : Type ℓ) : Type ℓ where
  ok : A → Framed A
  err : FrameError → Framed A

-- `writeUInt32LE`
unfoldable pub u32_le : ℕ → List ℕ
u32_le n = (n % 256) ∷ (n / 256 % 256) ∷ (n / 65536 % 256) ∷ (n / 16777216 % 256) ∷ []

-- `readUInt32LE(0)`, of four bytes at least
unfoldable pub read_u32_le : List ℕ → ℕ
read_u32_le (a ∷ b ∷ c ∷ d ∷ rest) = a + 256 * b + 65536 * c + 16777216 * d
read_u32_le bytes = 0

unfoldable pub encode_frame : (Value → List ℕ) → ℕ → Value → Framed (List ℕ)
encode_frame stringify maximum value =
    let bytes = stringify value in
    if length bytes == 0 || ltb maximum (length bytes)
    then err frame_oversize
    else ok (u32_le (length bytes) ++ bytes)

-- The reader: what is pending, what the stream has yet to give, and whether it was closed.
pub record Reader : Type 0 where
  pub pending : List ℕ
  pub chunks : List (List ℕ)
  pub closed : Bool

-- `while (pending.length < need) { … }`
unfoldable pub fill : (maximum need : ℕ) → List ℕ → List (List ℕ) → Framed (List ℕ × List (List ℕ))
fill maximum need pending [] =
    if ltb (length pending) need then err frame_truncated else ok (pending, [])
fill maximum need pending (chunk ∷ chunks) =
    let joined = pending ++ chunk in
    let rest = fill maximum need joined chunks in
    if ltb (length pending) need
    then (if ltb (maximum * 2 + 8) (length joined) then err frame_overflow else rest)
    else ok (pending, chunk ∷ chunks)

-- What `next` makes of a whole body.
unfoldable pub read_body : (List ℕ → Option Value) → List ℕ → Framed Value
read_body parse body = elim (parse body) [
  | none ↦ err frame_invalid_json
  | some value ↦ if is_object value then ok value else err frame_invalid_object
]

-- The value and the reader after it. Where `next` throws, the reader is given up.
unfoldable pub next : (List ℕ → Option Value) → ℕ → Reader → Framed (Value × Reader)
next parse maximum r =
    if r.closed then err channel_closed else elim (fill maximum 4 r.pending r.chunks) [
      | err why ↦ err why
      | ok (pending, chunks) ↦
          let size = read_u32_le pending in
          if size == 0 || ltb maximum size
          then err frame_oversize
          else elim (fill maximum (size + 4) pending chunks) [
            | err why ↦ err why
            | ok (pending', chunks') ↦ elim (read_body parse (take size (drop 4 pending'))) [
              | err why ↦ err why
              | ok value ↦ ok (
                value,
                record { pending = drop (size + 4) pending'; chunks = chunks'; closed = false },
              )
            ]
          ]
    ]
