-- ===== src/Attempt/Bootstrap/Cleared.antt =====
-- What every candidate of `browser-extension/src/bootstrap-fence.ts` rests on: the tests of
-- GitHub's
-- observation.
use bke_worker.Attempt.Platform.{same_field, valid_iso_utc, Platform}
use bke_worker.Attempt.Bootstrap.{
  refused, BootstrapCode, BootstrapState, recover_after_restart, is_event, fenced_may_have_sent,
  is_state, candidate_only, blocked_in, blocked, BootstrapFenceResult, BootstrapFenceInput,
}
use bke_worker.Attempt.Bootstrap.Evaluate.{
  has_valid_history, proceed, evaluate_input, recover, is_assigned,
}
use bke_worker.Prelude.{
  ◌&&◌, not, is_none, ◌∙◌, if_holds, guard_holds, inr, inl, refl, ap, false, ◌||◌, arith, ◌⊎◌, true,
  ◌≡◌,
}
use bke_worker.Text.{text}
use bke_worker.Protocol.Assignments.{is_truthy}
use bke_worker.Attempt.Bootstrap.Fences.{send_claim_of}
use bke_worker.Js.Integer.{pos, negsuc}
use bke_worker.Text.Equality.{text_eq→eq}
use bke_worker.Js.Value.{
  str, fraction, num, bool, null, undefined, is_undefined, get, Value, same_value,
}

pub same_value→eq : (a b : Value) → same_value a b ≡ true → a ≡ b
unfolding same_value
same_value→eq undefined undefined h = refl
same_value→eq null null h = refl
same_value→eq (bool true) (bool true) h = refl
same_value→eq (bool false) (bool false) h = refl
same_value→eq (num (pos m)) (num (pos n)) h = ground arith
same_value→eq (num (negsuc m)) (num (negsuc n)) h = ground arith
same_value→eq (fraction m) (fraction n) h = ground arith
same_value→eq (str s) (str t) h = ap str (text_eq→eq s t h)
same_value→eq a b h = cc

-- The tests on GitHub's observation that any candidate passes.
pub record IsCleared (js : Platform) (i : BootstrapFenceInput) : Type 0 where
  pub assigned : is_assigned i ≡ true
  pub same_head : same_field i.github (text "currentHeadSha") i.request (text "headSha") ≡ true
  pub is_open : is_truthy (get i.github (text "prOpen")) ≡ true
  pub same_attempt :
      same_field i.github (text "currentAttemptId") i.request (text "attemptId") ≡ true
  pub resolved : is_truthy (get i.github (text "previousAttemptResolved")) ≡ true
  pub valid_history : has_valid_history i ≡ true
  pub unclaimed_unless_sent :
      (is_undefined (send_claim_of i) || is_state i.state fenced_may_have_sent) ≡ true

module _ (js : Platform) (i : BootstrapFenceInput) (r : BootstrapFenceResult) where
  -- Where a candidate comes from.
  pub record Comes : Type 0 where
    pub cleared : IsCleared js i
    pub recovers_or_proceeds : (recover i ≡ r) ⊎ (proceed js i ≡ r)

  abbrev Explains : BootstrapFenceResult → Type 0
  Explains x = x ≡ r → r.decision ≡ candidate_only → Comes

  stops : (s : BootstrapState) (c : BootstrapCode) → Explains (blocked_in s c)
  unfolding blocked_in
  stops s c e d = let k : refused ≡ candidate_only = ap (λ x. x.decision) e ∙ d in cc

  pub evaluate_input-Comes : evaluate_input js i ≡ r → r.decision ≡ candidate_only → Comes
  unfolding evaluate_input blocked
  evaluate_input-Comes =
      guard_holds Explains (is_assigned i) _ _ (λ _. stops _ _)
        λ assigned.
          guard_holds Explains
            (same_field i.github (text "currentHeadSha") i.request (text "headSha")) _ _
            (λ _. stops _ _)
            λ head.
              guard_holds Explains (is_truthy (get i.github (text "prOpen"))) _ _ (λ _. stops _ _)
                λ live.
                  guard_holds Explains
                    (same_field i.github (text "currentAttemptId") i.request (text "attemptId")) _ _
                    (λ _. stops _ _)
                    λ attempt.
                      guard_holds Explains
                        (is_truthy (get i.github (text "previousAttemptResolved"))) _ _
                        (λ _. stops _ _)
                        λ resolved.
                          guard_holds Explains (has_valid_history i) _ _ (λ _. stops _ _)
                            λ history.
                              if_holds Explains
                                (is_none
                                  (valid_iso_utc js (get i.github (text "attemptAuthorizedAt"))))
                                _ _ (λ _. stops _ _)
                                λ dated.
                                  if_holds Explains
                                    (not (is_undefined (send_claim_of i))
                                      && not (is_state i.state fenced_may_have_sent))
                                    _ _ (λ _. stops _ _)
                                    λ unclaimed.
                                      let cleared : IsCleared js i = record {
                                        assigned = assigned;
                                        same_head = head;
                                        is_open = live;
                                        same_attempt = attempt;
                                        resolved = resolved;
                                        valid_history = history;
                                        unclaimed_unless_sent = ground arith;
                                      } in
                                      if_holds Explains (is_event i.event recover_after_restart)
                                        (recover i) (proceed js i)
                                        (λ _ e d. record {
                                          cleared = cleared;
                                          recovers_or_proceeds = inl e;
                                        })
                                        (λ _ e d. record {
                                          cleared = cleared;
                                          recovers_or_proceeds = inr e;
                                        })
