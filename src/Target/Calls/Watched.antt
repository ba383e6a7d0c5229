-- ===== src/Target/Calls/Watched.antt =====
-- One call of `withCurrentTargetObservation` among others:
-- `browser-extension/src/target-binding.ts`.
use bke_worker.Target.State.{
  observed, ran, tab_selected, blocked, rechecking, proof_done, running, returned, observation,
  Resumed, Result, proving, Call, Binding, same_owner, Reading, done,
}
use bke_worker.Target.Proving.{
  is_unchanged, resume, resume_inner, after_recheck, after_run, after_proof,
}
use bke_worker.Text.{Text}
use bke_worker.Prelude.{
  sym, subst, inr, arith, inl, Bool, ◌⊎◌, Option, none, some, true, false, ◌≡◌, refl,
}

module _ (o : Reading) (id key : Text) where
  abbrev pub IsOwner : Type 0
  IsOwner = same_owner o.snapshot id key ≡ true

  -- The call began with `o` and is not done. What `current` found for it is of its owner.
  abbrev pub IsProof : Call → Type 0
  IsProof (proving p w k c) = (p ≡ o) × ((c ≡ returned (observation none)) ⊎ IsOwner)
  IsProof (running p w k) = (p ≡ o) × IsOwner
  IsProof (rechecking p w k c) = (p ≡ o) × IsOwner
  IsProof (returned (blocked why)) = Unit
  IsProof c = ⊥

  -- The call is not done, or it became done in a binding where nothing had changed.
  abbrev pub Ends : Binding → Call → Type 0
  Ends b c = IsProof c ⊎ ((c ≡ returned proof_done) × (is_unchanged b o ≡ true) × IsOwner)

  after_proof-Ends :
      (b : Binding) (w k : Text) (r : Result)
      → (returned r ≡ returned (observation none)) ⊎ IsOwner
      → Ends b (after_proof b o w k r).1
  unfolding after_proof
  after_proof-Ends b w k (observation (some st)) h = ground arith
  after_proof-Ends b w k (observation none) h = inl tt
  after_proof-Ends b w k (blocked why) h = inl tt
  after_proof-Ends b w k tab_selected h = inl tt
  after_proof-Ends b w k observed h = inl tt
  after_proof-Ends b w k proof_done h = inl tt

  after_recheck-Ends : (b : Binding) (r : Result) → IsOwner → Ends b (after_recheck b o r).1
  unfolding after_recheck
  after_recheck-Ends b (observation (some st)) h = ground arith
  after_recheck-Ends b (observation none) h = inl tt
  after_recheck-Ends b (blocked why) h = inl tt
  after_recheck-Ends b tab_selected h = inl tt
  after_recheck-Ends b observed h = inl tt
  after_recheck-Ends b proof_done h = inl tt

  after_run-Ends : (b : Binding) (w k : Text) (f : Bool) → IsOwner → Ends b (after_run b o w k f).1
  unfolding after_run
  after_run-Ends b w k true h = inl (refl, h)
  after_run-Ends b w k false h = inl tt

  module _ (origin : Text → Option Text) (b : Binding) where
    resume_inner-none :
        (c : Call) (answer : Resumed)
        → (c ≡ returned (observation none)) ⊎ IsOwner
        → ((resume_inner origin b c answer).1 ≡ returned (observation none)) ⊎ IsOwner
    unfolding resume_inner
    resume_inner-none c answer (inl e) = inl (rw e refl)
    resume_inner-none c answer (inr h) = inr h

    pub resume-Ends :
        (c : Call) (answer : Resumed) → IsProof c → Ends b (resume origin b c answer).1
    unfolding resume resume_inner
    resume-Ends (proving p w k (returned r)) done (e, h) =
        subst (λ q. Ends b (after_proof b q w k r).1) (sym e) (after_proof-Ends b w k r h)
    resume-Ends (proving p w k c) answer (e, h) = inl (e, resume_inner-none c answer h)
    resume-Ends (running p w k) (ran f) (e, h) =
        subst (λ q. Ends b (after_run b q w k f).1) (sym e) (after_run-Ends b w k f h)
    resume-Ends (running p w k) answer (e, h) = inl (e, h)
    resume-Ends (rechecking p w k (returned r)) done (e, h) =
        subst (λ q. Ends b (after_recheck b q r).1) (sym e) (after_recheck-Ends b r h)
    resume-Ends (rechecking p w k c) answer (e, h) = inl (e, h)
    resume-Ends (returned (blocked why)) answer h = inl tt
    resume-Ends c answer h = absurd h
