-- ===== src/Framing/Filling.antt =====
-- Filling the buffer from chunks that do not overflow it: how the stream is cut does not matter.
use bke_worker.Framing.{frame_truncated, ok, err, fill}
use mathlib.Core.List.{append-nil, append_assoc}
use bke_worker.Prelude.{
  ◌∙◌, subst, sym, ap, inr, inl, length-append, Bool-cases, ltb, ◌++◌, All, length, List, ℕ, false,
  [], ◌∷◌, ◌≡◌, refl, arith, ◌+◌, ◌*◌, ◌≤◌, ◌<◌,
}

-- What is pending and what the stream has yet to give.
abbrev pub concat : List (List ℕ) → List ℕ
concat [] = []
concat (chunk ∷ chunks) = chunk ++ concat chunks

-- A chunk of at most one frame and one byte: with less than a frame pending, it does not overflow.
abbrev pub IsSmall : ℕ → List ℕ → Type 0
IsSmall maximum chunk = length chunk ≤ maximum + 5

module _ (maximum need : ℕ) (fits : need ≤ maximum + 4) where
  joined_fits :
      (pending chunk : List ℕ)
      → IsSmall maximum chunk
      → length pending < need
      → ltb (maximum * 2 + 8) (length (pending ++ chunk)) ≡ false
  joined_fits pending chunk small short = ground (arith, length-append pending chunk)

  nothing_left : (pending : List ℕ) → need ≤ length (pending ++ []) → need ≤ length pending
  nothing_left pending h = subst (λ t. need ≤ length t) (append-nil pending) h

  -- Enough bytes: the loop ends with them, and no byte is lost or moved.
  pub fill-ok :
      (pending : List ℕ) (chunks : List (List ℕ))
      → All (IsSmall maximum) chunks
      → need ≤ length (pending ++ concat chunks)
      → (pending' : List ℕ) × (chunks' : List (List ℕ)) × (fill maximum need pending chunks
          ≡ ok (pending', chunks'))
        × (pending' ++ concat chunks' ≡ pending ++ concat chunks)
        × (need ≤ length pending')
        × All (IsSmall maximum) chunks'
  unfolding fill
  fill-ok pending [] small enough =
      let long = nothing_left pending enough in (pending, [], ground arith, refl, long, tt)
  fill-ok pending (chunk ∷ chunks) small enough = elim (Bool-cases (ltb (length pending) need)) [
    | inl short ↦
        let shift = append_assoc pending chunk (concat chunks) in
        let (p, cs, filled, same, long, smalls) =
          fill-ok (pending ++ chunk) chunks small.1
            (subst (λ t. need ≤ length t) (sym shift) enough) in
        (
          p,
          cs,
          ground (arith, joined_fits pending chunk small.0, filled),
          same ∙ shift,
          long,
          smalls,
        )
    | inr long ↦ (pending, chunk ∷ chunks, rw long refl, refl, ground arith, small)
  ]

  -- Too few bytes in all: the frame is truncated.
  pub fill-truncated :
      (pending : List ℕ) (chunks : List (List ℕ))
      → All (IsSmall maximum) chunks
      → length (pending ++ concat chunks) < need
      → fill maximum need pending chunks ≡ err frame_truncated
  unfolding fill
  fill-truncated pending [] small short = ground (arith, ap length (append-nil pending))
  fill-truncated pending (chunk ∷ chunks) small short = ground (
    arith,
    joined_fits pending chunk small.0,
    ap length (append_assoc pending chunk (concat chunks)),
    length-append pending (chunk ++ concat chunks),
    fill-truncated (pending ++ chunk) chunks small.1,
  )
