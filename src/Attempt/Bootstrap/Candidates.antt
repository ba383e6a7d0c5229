-- ===== src/Attempt/Bootstrap/Candidates.antt =====
-- The four candidates of `browser-extension/src/bootstrap-fence.ts`, and what each rests on.
use bke_worker.Js.Value.{get, undefined, Value, is_undefined}
use bke_worker.Attempt.Bootstrap.{
  is_event, confirmed, blocked_state, unauthorized, uncertain, delivery_uncertain,
  recover_after_restart, mark_delivery_uncertain, confirm_new_conversation, verify_fence_commit,
  new_conversation_candidate, confirmed_new_conversation, invalid_input, is_delivery,
  first_send_cas_candidate, prepare, BootstrapEvent, prepare_candidate, blocked, is_state, refused,
  safe_to_reevaluate_prepare, BootstrapCode, not_sent, may_have_sent, fenced_ready_to_send,
  blocked_in, BootstrapState, candidate, authorized_prepare, candidate_only, fenced_may_have_sent,
  BootstrapFenceResult, BootstrapFenceInput,
}
use bke_worker.Text.{text, Text}
use bke_worker.Prelude.{
  option_holds, sym, arith, guard_holds, ◌∙◌, some, ◌||◌, ◌&&◌, ap, not, none, refl, if_holds,
  Option, true, ◌≡◌,
}
use bke_worker.Attempt.Bootstrap.Pages.{
  thread_page_ready, page_conversation, landing_page_ready, target_matches_request,
}
use bke_worker.Attempt.Bootstrap.Evaluate.{
  is_maybe_sent, proceed, stopped_by_state, is_coherent_receipt, after_page, confirm_receipt,
  verify_fence, confirm_conversation, handle_event, prepare_attempt, mark_uncertain, recover,
}
use bke_worker.Attempt.Bootstrap.Fences.{
  validate_fence_commit_receipt, valid_send_claim, valid_fence, fence_of, send_claim_of,
}
use bke_worker.Attempt.Platform.{Platform}

-- Nothing was fenced, claimed or sent.
pub record IsUnsent (i : BootstrapFenceInput) : Type 0 where
  pub state_is : i.state ≡ authorized_prepare
  pub delivery_is : i.delivery ≡ not_sent
  pub unfenced : fence_of i ≡ undefined

-- The fence is committed, and nothing was sent.
pub record IsFenced (js : Platform) (i : BootstrapFenceInput) : Type 0 where
  pub state_is : i.state ≡ fenced_ready_to_send
  pub delivery_is : i.delivery ≡ not_sent
  pub unclaimed : send_claim_of i ≡ undefined
  pub fence : valid_fence js i ≡ true
  pub receipt : validate_fence_commit_receipt js i ≡ true
  pub landing : landing_page_ready js i ≡ none

-- The fence is claimed, and the page shows the conversation `id` that the receipt names.
pub record IsReceived (js : Platform) (i : BootstrapFenceInput) (id : Text) : Type 0 where
  pub state_is : i.state ≡ fenced_may_have_sent
  pub delivery_is : i.delivery ≡ may_have_sent
  pub fence : valid_fence js i ≡ true
  pub claim : valid_send_claim js i ≡ true
  pub shown : page_conversation js i ≡ some id
  pub coherent : is_coherent_receipt js i (get i.browser (text "firstMessageReceipt")) id ≡ true

-- What a candidate rests on, by its kind.
pub data Rests (js : Platform) (i : BootstrapFenceInput) (r : BootstrapFenceResult) : Type 0 where
  reevaluates :
      IsUnsent i → r ≡ candidate authorized_prepare safe_to_reevaluate_prepare → Rests js i r
  prepares :
      IsUnsent i
      → landing_page_ready js i ≡ none
      → target_matches_request i ≡ true
      → r ≡ candidate authorized_prepare prepare_candidate
      → Rests js i r
  sends :
      IsFenced js i
      → target_matches_request i ≡ true
      → r ≡ candidate fenced_ready_to_send first_send_cas_candidate
      → Rests js i r
  confirms :
      (id : Text)
      → IsReceived js i id
      → target_matches_request i ≡ true
      → r ≡ candidate confirmed_new_conversation new_conversation_candidate
      → Rests js i r

pub undefined→eq : (v : Value) → is_undefined v ≡ true → v ≡ undefined
unfolding is_undefined
undefined→eq undefined h = refl
undefined→eq v h = cc

-- A result that stops an event is a refusal.
abbrev Stops : Option BootstrapFenceResult → Type 0
Stops o = (x : BootstrapFenceResult) → o ≡ some x → x.decision ≡ refused

refusal-Stops : (s : BootstrapState) (c : BootstrapCode) → Stops (some (blocked_in s c))
unfolding blocked_in
refusal-Stops s c x e = ground arith

stopped_by_state-Stops : (i : BootstrapFenceInput) → Stops (stopped_by_state i)
unfolding stopped_by_state blocked
stopped_by_state-Stops i =
    if_holds Stops (is_state i.state unauthorized) _ _ (λ _. refusal-Stops _ _)
      λ _.
        if_holds Stops (is_state i.state blocked_state) _ _ (λ _. refusal-Stops _ _)
          λ _.
            if_holds Stops
              (is_state i.state confirmed_new_conversation || is_delivery i.delivery confirmed) _ _
              (λ _. refusal-Stops _ _)
              λ _.
                if_holds Stops
                  (is_state i.state delivery_uncertain || is_delivery i.delivery uncertain) _ _
                  (λ _. refusal-Stops _ _)
                  λ _.
                    if_holds Stops
                      (is_maybe_sent i.state i.delivery
                        && (not (is_state i.state fenced_may_have_sent)
                            || not (is_delivery i.delivery may_have_sent)
                            || not (is_event i.event confirm_new_conversation)))
                      _ _ (λ _. refusal-Stops _ _)
                      λ _.
                        if_holds Stops
                          (is_state i.state fenced_ready_to_send
                            && not (is_delivery i.delivery not_sent))
                          _ _ (λ _. refusal-Stops _ _) (λ _ x e. cc)

module _ (js : Platform) (i : BootstrapFenceInput) (r : BootstrapFenceResult) where
  abbrev Explains : BootstrapFenceResult → Type 0
  Explains x = x ≡ r → r.decision ≡ candidate_only → Rests js i r

  stops : (s : BootstrapState) (c : BootstrapCode) → Explains (blocked_in s c)
  unfolding blocked_in
  stops s c e d = let k : refused ≡ candidate_only = ap (λ x. x.decision) e ∙ d in cc

  after_page-Rests :
      (s : BootstrapState) (o : Option BootstrapCode) (x : BootstrapFenceResult)
      → (o ≡ none → Explains x)
      → Explains (after_page s o x)
  after_page-Rests s none x h = h refl
  after_page-Rests s (some c) x h = stops s c

  pub recover-Rests : Explains (recover i)
  unfolding recover
  recover-Rests =
      if_holds Explains
        (is_state i.state fenced_may_have_sent
          || is_state i.state delivery_uncertain
          || is_delivery i.delivery may_have_sent
          || is_delivery i.delivery uncertain)
        _ _ (λ _. stops _ _)
        (λ apart.
          if_holds Explains
            (is_state i.state authorized_prepare
              && is_delivery i.delivery not_sent
              && is_undefined (fence_of i))
            _ _
            (λ h e d.
              reevaluates
                (record {
                  state_is = ground arith;
                  delivery_is = ground arith;
                  unfenced = undefined→eq (fence_of i) (ground arith);
                })
                (sym e))
            (λ _. stops _ _))

  mark_uncertain-Rests : Explains (mark_uncertain i)
  unfolding mark_uncertain
  mark_uncertain-Rests =
      if_holds Explains
        (is_state i.state fenced_may_have_sent && is_delivery i.delivery may_have_sent) _ _
        (λ _. stops _ _) (λ _. stops _ _)

  module _ (target : target_matches_request i ≡ true) where
    prepare_attempt-Rests : Explains (prepare_attempt js i)
    unfolding prepare_attempt
    prepare_attempt-Rests =
        if_holds Explains
          (not (is_state i.state authorized_prepare) || not (is_delivery i.delivery not_sent)) _ _
          (λ _. stops _ _)
          λ state.
            guard_holds Explains (is_undefined (fence_of i)) _ _ (λ _. stops _ _)
              λ unfenced. after_page-Rests _ (landing_page_ready js i) _ λ ready e d.
                prepares
                  (record {
                    state_is = ground arith;
                    delivery_is = ground arith;
                    unfenced = undefined→eq (fence_of i) unfenced;
                  })
                  ready target (sym e)

    verify_fence-Rests : Explains (verify_fence js i)
    unfolding verify_fence
    verify_fence-Rests =
        if_holds Explains
          (not (is_state i.state fenced_ready_to_send) || not (is_delivery i.delivery not_sent)) _ _
          (λ _. stops _ _)
          λ state.
            guard_holds Explains (is_undefined (send_claim_of i)) _ _ (λ _. stops _ _)
              λ unclaimed.
                guard_holds Explains (valid_fence js i) _ _ (λ _. stops _ _)
                  λ fence.
                    guard_holds Explains (validate_fence_commit_receipt js i) _ _ (λ _. stops _ _)
                      λ receipt. after_page-Rests _ (landing_page_ready js i) _ λ ready e d.
                        sends
                          (record {
                            state_is = ground arith;
                            delivery_is = ground arith;
                            unclaimed = undefined→eq (send_claim_of i) unclaimed;
                            fence = fence;
                            receipt = receipt;
                            landing = ready;
                          })
                          target (sym e)

    confirm_conversation-Rests : Explains (confirm_conversation js i)
    unfolding confirm_conversation confirm_receipt
    confirm_conversation-Rests =
        if_holds Explains
          (not (is_state i.state fenced_may_have_sent)
            || not (is_delivery i.delivery may_have_sent))
          _ _ (λ _. stops _ _)
          λ state.
            guard_holds Explains (valid_fence js i) _ _ (λ _. stops _ _)
              λ fence.
                guard_holds Explains (valid_send_claim js i) _ _ (λ _. stops _ _)
                  λ claim. after_page-Rests _ (thread_page_ready js i) _ λ ready.
                    option_holds Explains (page_conversation js i) _ _ (λ _. stops _ _)
                      λ id shown.
                        if_holds Explains
                          (is_coherent_receipt js i (get i.browser (text "firstMessageReceipt")) id)
                          _ _
                          (λ coherent e d.
                            confirms id
                              (record {
                                state_is = ground arith;
                                delivery_is = ground arith;
                                fence = fence;
                                claim = claim;
                                shown = shown;
                                coherent = coherent;
                              })
                              target (sym e))
                          (λ _. stops _ _)

    handle_event-Rests : Explains (handle_event js i)
    unfolding handle_event blocked
    handle_event-Rests = event_lem i.event
      where
        event_lem :
            (e : BootstrapEvent)
            → Explains (elim e as (λ x. BootstrapFenceResult) [
              | prepare ↦ prepare_attempt js i
              | verify_fence_commit ↦ verify_fence js i
              | confirm_new_conversation ↦ confirm_conversation js i
              | mark_delivery_uncertain ↦ mark_uncertain i
              | recover_after_restart ↦ blocked invalid_input
            ])
        event_lem prepare = prepare_attempt-Rests
        event_lem verify_fence_commit = verify_fence-Rests
        event_lem confirm_new_conversation = confirm_conversation-Rests
        event_lem mark_delivery_uncertain = mark_uncertain-Rests
        event_lem recover_after_restart = stops _ _

  pub proceed-Rests : Explains (proceed js i)
  unfolding proceed blocked
  proceed-Rests =
      option_holds Explains (stopped_by_state i) _ _
        (λ goes.
          guard_holds Explains (target_matches_request i) _ _ (λ _. stops _ _) handle_event-Rests)
        (λ x e k d.
          let c : refused ≡ candidate_only =
            sym (stopped_by_state-Stops i x e) ∙ ap (λ y. y.decision) k ∙ d in
          cc)
