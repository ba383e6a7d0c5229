-- ===== src/Target/Calls/Proofs.antt =====
-- The steps of a call of `withCurrentTargetObservation` of
-- `browser-extension/src/target-binding.ts`, among all others.
use bke_worker.Text.{Text}
use bke_worker.Target.Proving.{is_unchanged, resume_inner, resume}
use bke_worker.Target.State.{proof_done, returned, Resumed, Reading, idle, Binding, Call}
use bke_worker.Target.Calls.{
  set_call, invalidated, navigated, goes_on, proves, asks, observes, moved, selects, Event,
  TargetWorld, run, begin, step,
}
use bke_worker.Target.Calls.Later.{
  tab_changed-IsLater, invalidate-IsLater, IsLater-trans, IsLater-refl, IsLater,
}
use bke_worker.Target.Calls.Goes.{
  resume-Goes, start_proof-Goes, start_current-Goes, observe-Goes, select-Goes, Goes,
}
use bke_worker.Target.Calls.Watched.{resume-Ends, Ends, IsProof}
use bke_worker.Prelude.{
  arith, true, ◌<◌, inr, ◌≢◌, ◌⊎◌, ◌∙◌, ap, ==_iff, subst, ◌==◌, inl, if_holds, refl, ◌++◌, ◌≡◌,
  Option, ℕ, List, [], ◌∷◌,
}

module _ (origin : Text → Option Text) (trim : Text → Text) (extension_id : Text) where
  begin-IsLater :
      (w : TargetWorld) (i : ℕ) (next : Binding × Call)
      → Goes w.binding next
      → IsLater w.binding (begin w i next).binding
  unfolding begin
  begin-IsLater w i next h = begin_lem (w.calls i)
    where
      begin_lem :
          (c : Call)
          → IsLater w.binding
              (elim c as (λ x. TargetWorld) [ idle ↦ moved w i next | other ↦ w ]).binding
      begin_lem idle = h.later
      begin_lem c = IsLater-refl w.binding

  pub step-IsLater :
      (w : TargetWorld) (e : Event) → IsLater w.binding (step origin trim extension_id w e).binding
  unfolding step
  step-IsLater w (selects i id key) = begin-IsLater w i _ (select-Goes w.binding trim id key)
  step-IsLater w (observes i payload sender id key) =
      begin-IsLater w i _ (observe-Goes w.binding origin extension_id payload sender id key)
  step-IsLater w (asks i id key) = begin-IsLater w i _ (start_current-Goes w.binding id key)
  step-IsLater w (proves i id key) = begin-IsLater w i _ (start_proof-Goes w.binding id key)
  step-IsLater w (goes_on i answer) = (resume-Goes origin w.binding (w.calls i) answer).later
  step-IsLater w invalidated = invalidate-IsLater w.binding
  step-IsLater w (navigated n) = tab_changed-IsLater w.binding n

  pub run-IsLater :
      (w : TargetWorld) (es : List Event)
      → IsLater w.binding (run origin trim extension_id w es).binding
  unfolding run
  run-IsLater w [] = IsLater-refl w.binding
  run-IsLater w (e ∷ es) =
      IsLater-trans (step-IsLater w e) (run-IsLater (step origin trim extension_id w e) es)

  pub run-append :
      (w : TargetWorld) (xs ys : List Event)
      → run origin trim extension_id w (xs ++ ys)
        ≡ run origin trim extension_id (run origin trim extension_id w xs) ys
  unfolding run
  run-append w [] ys = refl
  run-append w (x ∷ xs) ys = run-append (step origin trim extension_id w x) xs ys

  -- A step moves a call by its own answer, or leaves it once it has begun.
  module _ (Q : Call → Type 0) (w : TargetWorld) (i : ℕ) (began : w.calls i ≢ idle)
      (now : Q (w.calls i))
      (then : (answer : Resumed) → Q (resume origin w.binding (w.calls i) answer).1) where
    moved_keeps :
        (j : ℕ) (answer : Resumed)
        → Q (set_call w.calls j (resume origin w.binding (w.calls j) answer).1 i)
    moved_keeps j answer =
        if_holds Q (i == j) _ _
          (λ same.
            subst (λ k. Q (resume origin w.binding (w.calls k) answer).1) ((==_iff i j).0 same)
              (then answer))
          (λ other. now)

    begin_keeps : (j : ℕ) (next : Binding × Call) → Q ((begin w j next).calls i)
    unfolding begin
    begin_keeps j next = begin_lem (w.calls j) refl
      where
        begin_lem :
            (c : Call)
            → w.calls j ≡ c
            → Q ((elim c as (λ x. TargetWorld) [ idle ↦ moved w j next | other ↦ w ]).calls i)
        begin_lem idle e =
            if_holds Q (i == j) next.1 (w.calls i)
              (λ same. absurd (began (ap w.calls ((==_iff i j).0 same) ∙ e))) (λ other. now)
        begin_lem c e = now

    step_keeps : (e : Event) → Q ((step origin trim extension_id w e).calls i)
    unfolding step
    step_keeps (selects j a k) = begin_keeps j _
    step_keeps (observes j p s a k) = begin_keeps j _
    step_keeps (asks j a k) = begin_keeps j _
    step_keeps (proves j a k) = begin_keeps j _
    step_keeps (goes_on j answer) = moved_keeps j answer
    step_keeps invalidated = now
    step_keeps (navigated n) = now

  pub step-Ends :
      (o : Reading) (id key : Text) (w : TargetWorld) (i : ℕ) (e : Event)
      → IsProof o id key (w.calls i)
      → Ends o id key w.binding ((step origin trim extension_id w e).calls i)
  step-Ends o id key w i e h =
      step_keeps (Ends o id key w.binding) w i (λ none_yet. subst (IsProof o id key) none_yet h)
        (inl h) (λ answer. resume-Ends o id key origin w.binding (w.calls i) answer h) e

  step-done :
      (w : TargetWorld) (i : ℕ) (e : Event)
      → w.calls i ≡ returned proof_done
      → (step origin trim extension_id w e).calls i ≡ returned proof_done
  unfolding resume resume_inner
  step-done w i e h =
      step_keeps (λ c. c ≡ returned proof_done) w i (λ none_yet. cc) h (λ answer. rw h refl) e

  -- A call that is not done yet is still of the proof.
  pub run-IsProof :
      (o : Reading) (id key : Text) (w : TargetWorld) (i : ℕ) (es : List Event)
      → IsProof o id key (w.calls i) ⊎ (w.calls i ≡ returned proof_done)
      → (run origin trim extension_id w es).calls i ≢ returned proof_done
      → IsProof o id key ((run origin trim extension_id w es).calls i)
  unfolding run
  run-IsProof o id key w i [] (inl h) open_yet = h
  run-IsProof o id key w i [] (inr h) open_yet = absurd (open_yet h)
  run-IsProof o id key w i (e ∷ es) (inr h) open_yet =
      run-IsProof o id key (step origin trim extension_id w e) i es (inr (step-done w i e h))
        open_yet
  run-IsProof o id key w i (e ∷ es) (inl h) open_yet =
      run-IsProof o id key (step origin trim extension_id w e) i es
        (elim (step-Ends o id key w i e h) [ inl k ↦ inl k | inr k ↦ inr k.0 ]) open_yet

  -- What is unchanged at the end was so all along.
  pub unchanged_between :
      (o : Reading) (b c d : Binding)
      → IsLater b c
      → IsLater c d
      → o.started ≡ b.generation
      → o.snapshot.identity < b.made
      → o.seen.identity < b.made
      → is_unchanged d o ≡ true
      → is_unchanged c o ≡ true
  unfolding is_unchanged
  unchanged_between o b c d p q started s_made st_made h = ground (
    arith,
    q.same_selected o.snapshot,
    q.same_status o.seen,
    p.generation_kept,
    q.generation_kept,
    p.made_kept,
  )
