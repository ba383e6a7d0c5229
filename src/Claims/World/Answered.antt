-- ===== src/Claims/World/Answered.antt =====
-- A call of `claimSendOnce` of `browser-extension/src/send-once-claim.ts` that the adapter answers
-- every time and that no other call comes between.
use bke_worker.Claims.{
  ClaimCode, exists, returned, reading_ref, reading_after, ClaimAuthority, reading_authority,
  diagnosing, write_uncertain, reading_back, after_check, SendOnceAttempt, created, creating,
  after_ref, after_authority, after_create, after_read_back, Pc,
}
use bke_worker.Claims.World.{
  checked, read_back, ref_created, ref_read, ref_exists, authority_read, diagnosed, next, set_ref,
  move, Reach, World, ref, set_pc,
}
use bke_worker.Text.{Text}
use bke_worker.Prelude.{
  ap, ◌∙◌, inl, inr, ℕ, zero, suc, true, Option, Option-cases, none, some, ◌≡◌, refl,
}

module _ (request : ℕ → SendOnceAttempt) (i : ℕ) (a : ClaimAuthority) where
  -- Call `i` goes on, the adapter answers it from the refs as they are, and GitHub's state of the
  -- pull request is `a`.
  abbrev pub answered_at : World → Pc → World
  answered_at w reading_authority = move request w i (after_authority (request i) (some a))
  answered_at w reading_ref = move request w i (after_ref (some (w.refs (ref request i))))
  answered_at w creating = elim (w.refs (ref request i)) [
    | none ↦ record {
      refs = set_ref w.refs (ref request i) (request i).head_sha;
      pc = set_pc w.pc i (after_create (some created));
    }
    | some head ↦ move request w i (after_create (some exists))
  ]
  answered_at w diagnosing = move request w i (returned write_uncertain)
  answered_at w reading_back =
      move request w i (after_read_back (request i) (some (w.refs (ref request i))))
  answered_at w reading_after = move request w i (after_check (request i) (some a))
  answered_at w (returned code) = w

  abbrev pub answered : ℕ → World → World
  answered zero w = w
  answered (suc n) w = answered n (answered_at w (w.pc i))

  -- An undisturbed step is a step.
  answered_at-Reach :
      (refs : Text → Option Text) (w : World) (p : Pc)
      → w.pc i ≡ p
      → Reach request refs w
      → Reach request refs (answered_at w p)
  answered_at-Reach refs w reading_authority e h = next h (authority_read i (some a) e)
  answered_at-Reach refs w reading_ref e h = next h (ref_read i true e)
  answered_at-Reach refs w creating e h = elim (Option-cases (w.refs (ref request i))) [
    | inl missing ↦ rw (missing, answered_at) (next h (ref_created i true e missing))
    | inr (head, there) ↦
        rw (there, answered_at) (next h (ref_exists i head (some exists) e there (λ q. cc)))
  ]
  answered_at-Reach refs w diagnosing e h = next h (diagnosed i e)
  answered_at-Reach refs w reading_back e h = next h (read_back i true e)
  answered_at-Reach refs w reading_after e h = next h (checked i (some a) e)
  answered_at-Reach refs w (returned code) e h = h

  pub answered-Reach :
      (refs : Text → Option Text) (n : ℕ) (w : World)
      → Reach request refs w
      → Reach request refs (answered n w)
  answered-Reach refs zero w h = h
  answered-Reach refs (suc n) w h =
      answered-Reach refs n (answered_at w (w.pc i)) (answered_at-Reach refs w (w.pc i) refl h)

  -- The next step is the one of the state that the call is in.
  pub answered_here :
      (n : ℕ) (w v : World) (p : Pc)
      → w.pc i ≡ p
      → answered_at w p ≡ v
      → answered (suc n) w ≡ answered n v
  answered_here n w v p e step = ap (λ q. answered n (answered_at w q)) e ∙ ap (answered n) step

  pub answered_back :
      (n : ℕ) (w : World) (code : ClaimCode) → w.pc i ≡ returned code → answered n w ≡ w
  answered_back zero w code e = refl
  answered_back (suc n) w code e =
      answered_here n w w (returned code) e refl ∙ answered_back n w code e
