-- ===== src/Framing/Truncated.antt =====
-- A stream that ends inside a frame is reported, and never read as a value.
use bke_worker.Framing.{ok, fill, frame_truncated, err, read_u32_le, Reader, next}
use bke_worker.Js.Value.{Value}
use bke_worker.Framing.Filling.{fill-ok, fill-truncated, concat, IsSmall}
use bke_worker.Framing.RoundTrip.{size_ok, read_u32_le-append}
use bke_worker.Prelude.{
  ◌∙◌, sym, inr, inl, ◌⊎◌, ◌++◌, length, All, false, Option, List, ℕ, ◌≡◌, ◌+◌, ◌≤◌, ◌<◌, arith, ap,
}

next-short :
    (parse : List ℕ → Option Value) (maximum : ℕ) (r : Reader) (p : List ℕ) (cs : List (List ℕ))
    → r.closed ≡ false
    → fill maximum 4 r.pending r.chunks ≡ ok (p, cs)
    → 0 < read_u32_le p
    → read_u32_le p ≤ maximum
    → fill maximum (read_u32_le p + 4) p cs ≡ err frame_truncated
    → next parse maximum r ≡ err frame_truncated
unfolding next
next-short parse maximum r p cs opened first some_bytes fits second =
    rw (opened, first, size_ok maximum (read_u32_le p) some_bytes fits, second, next)

-- Whatever the chunks, if each holds at most a frame and a byte: a stream of fewer than four bytes,
-- or of four bytes that announce a body within the limit and less than that body, is truncated.
pub next-truncated :
    (parse : List ℕ → Option Value) (maximum : ℕ) (r : Reader)
    → r.closed ≡ false
    → All (IsSmall maximum) r.chunks
    → ((length (r.pending ++ concat r.chunks) < 4)
        ⊎ ((4 ≤ length (r.pending ++ concat r.chunks))
            × (0 < read_u32_le (r.pending ++ concat r.chunks))
            × (read_u32_le (r.pending ++ concat r.chunks) ≤ maximum)
            × (length (r.pending ++ concat r.chunks)
                < read_u32_le (r.pending ++ concat r.chunks) + 4)))
    → next parse maximum r ≡ err frame_truncated
unfolding next
next-truncated parse maximum r opened small (inl few) =
    rw (opened, fill-truncated maximum 4 (omega arith) r.pending r.chunks small few, next)
next-truncated parse maximum r opened small (inr (four, some_bytes, fits, short)) =
    let (p, cs, first, same, four', smalls) =
      fill-ok maximum 4 (omega arith) r.pending r.chunks small four in
    let size = sym (read_u32_le-append p (concat cs) four') ∙ ap read_u32_le same in
    let content = ap length same in
    next-short parse maximum r p cs opened first (omega (arith, size)) (omega (arith, size)) (
      fill-truncated maximum (read_u32_le p + 4) (omega (arith, size)) p cs smalls
        (omega (arith, size, content)))
