-- ===== src/Attempt/Bootstrap/Evaluate.antt =====
-- `evaluateBootstrapFence` of `browser-extension/src/bootstrap-fence.ts`, after the tests on the
-- shape of its input.
use bke_worker.Attempt.Bootstrap.{
  first_send_cas_candidate, new_conversation_candidate, prepare_candidate,
  safe_to_reevaluate_prepare, fence_invalid, is_event, candidate, recover_after_restart,
  attempt_state_conflict, first_message_receipt_invalid, confirmed, prior_history_invalid,
  previous_attempt_unresolved, delivery_is_uncertain, fence_replay_or_wrong_execution,
  conversation_id_reused, uncertain, confirmed_new_conversation, mark_delivery_uncertain,
  durable_fence_required, attempt_terminal, not_sent, pr_not_runnable, may_have_sent,
  confirm_new_conversation, browser_target_conflict, blocked_state, is_delivery,
  verify_fence_commit, github_head_changed, delivery_uncertain, attempt_not_authorized,
  invalid_input, github_assignment_conflict, authorized_prepare, fenced_ready_to_send, unauthorized,
  fenced_may_have_sent, blocked, blocked_in, BootstrapCode, is_state, prepare, BootstrapFenceResult,
  DeliveryKnowledge, BootstrapState, BootstrapFenceInput,
}
use bke_worker.Js.Value.{
  is_undefined, is_text, text_or_empty, is_num, elements, null, same_value, get, Value,
}
use bke_worker.Prelude.{is_none, ◌&&◌, ◌||◌, none, not, some, if◌then◌else◌, Bool, Option}
use bke_worker.Text.{text, Text}
use bke_worker.Attempt.Bootstrap.Reading.{read_input}
use bke_worker.Attempt.Bootstrap.Pages.{
  thread_page_ready, page_conversation, landing_page_ready, target_matches_request,
}
use bke_worker.Attempt.Bootstrap.Fences.{
  valid_send_claim, validate_fence_commit_receipt, is_nonzero, valid_fence, is_after_url,
  is_for_request, send_claim_of, fence_of,
}
use bke_worker.Attempt.History.{includes_text, dense_valid_history}
use bke_worker.Protocol.Assignments.{is_truthy}
use bke_worker.Attempt.Platform.{
  is_ordered, landing_url, same_field, clock_skew_ms, valid_iso_utc, Platform,
}

-- The pull request is assigned to the worker of the request, and to no other.
unfoldable pub is_assigned : BootstrapFenceInput → Bool
is_assigned i =
    same_field i.github (text "repository") i.request (text "repository")
    && same_field i.github (text "prNumber") i.request (text "prNumber")
    && same_field i.github (text "assignedWorkerId") i.request (text "workerId")
    && is_num (get i.github (text "workerOpenPrAssignments")) 1
    && is_num (get i.github (text "prAssignedWorkerCount")) 1

-- `history.includes(id)`, for an id that is `null` or a string
unfoldable pub is_prior_or_null : (id history : Value) → Bool
is_prior_or_null id history =
    same_value id null || includes_text (elements history) (text_or_empty id)

unfoldable pub has_valid_history : BootstrapFenceInput → Bool
has_valid_history i =
    let history = get i.github (text "priorConversationIds") in
    dense_valid_history history
    && is_prior_or_null (get i.github (text "previousConversationId")) history

-- Delivery may have happened, or it is not known whether it did.
abbrev pub is_maybe_sent : BootstrapState → DeliveryKnowledge → Bool
is_maybe_sent s d = is_state s fenced_may_have_sent || is_delivery d may_have_sent

-- The result of a test of the page, or the one that is given.
abbrev pub after_page :
    BootstrapState → Option BootstrapCode → BootstrapFenceResult → BootstrapFenceResult
after_page s (some code) r = blocked_in s code
after_page s none r = r

-- `RECOVER_AFTER_RESTART`
unfoldable pub recover : BootstrapFenceInput → BootstrapFenceResult
recover i =
    if is_state i.state fenced_may_have_sent
      || is_state i.state delivery_uncertain
      || is_delivery i.delivery may_have_sent
      || is_delivery i.delivery uncertain
    then blocked_in delivery_uncertain delivery_is_uncertain
    else if is_state i.state authorized_prepare
        && is_delivery i.delivery not_sent
        && is_undefined (fence_of i)
    then candidate authorized_prepare safe_to_reevaluate_prepare
    else blocked_in i.state attempt_terminal

-- `MARK_DELIVERY_UNCERTAIN`
unfoldable pub mark_uncertain : BootstrapFenceInput → BootstrapFenceResult
mark_uncertain i =
    if is_state i.state fenced_may_have_sent && is_delivery i.delivery may_have_sent
    then blocked_in delivery_uncertain delivery_is_uncertain
    else blocked_in i.state (
        if is_state i.state authorized_prepare
        then durable_fence_required
        else attempt_state_conflict)

-- Where the state and what is known of the delivery stop every event but the recovery.
unfoldable pub stopped_by_state : BootstrapFenceInput → Option BootstrapFenceResult
stopped_by_state i =
    if is_state i.state unauthorized
    then some (blocked attempt_not_authorized)
    else if is_state i.state blocked_state
    then some (blocked_in blocked_state attempt_terminal)
    else if is_state i.state confirmed_new_conversation || is_delivery i.delivery confirmed
    then some (blocked_in confirmed_new_conversation attempt_terminal)
    else if is_state i.state delivery_uncertain || is_delivery i.delivery uncertain
    then some (blocked_in delivery_uncertain delivery_is_uncertain)
    else if is_maybe_sent i.state i.delivery
        && (not (is_state i.state fenced_may_have_sent)
            || not (is_delivery i.delivery may_have_sent)
            || not (is_event i.event confirm_new_conversation))
    then some (blocked_in delivery_uncertain delivery_is_uncertain)
    else if is_state i.state fenced_ready_to_send && not (is_delivery i.delivery not_sent)
    then some (blocked_in i.state attempt_state_conflict)
    else none

module _ (js : Platform) where
  -- `PREPARE`
  unfoldable pub prepare_attempt : BootstrapFenceInput → BootstrapFenceResult
  prepare_attempt i =
      if not (is_state i.state authorized_prepare) || not (is_delivery i.delivery not_sent)
      then blocked_in i.state (
          if is_state i.state fenced_may_have_sent
          then fence_replay_or_wrong_execution
          else attempt_state_conflict)
      else if not (is_undefined (fence_of i))
      then blocked_in i.state attempt_state_conflict
      else after_page i.state (landing_page_ready js i)
          (candidate authorized_prepare prepare_candidate)

  -- `VERIFY_FENCE_COMMIT`
  unfoldable pub verify_fence : BootstrapFenceInput → BootstrapFenceResult
  verify_fence i =
      if not (is_state i.state fenced_ready_to_send) || not (is_delivery i.delivery not_sent)
      then blocked_in (if is_maybe_sent i.state i.delivery then delivery_uncertain else i.state) (
          if is_state i.state authorized_prepare
          then durable_fence_required
          else if is_maybe_sent i.state i.delivery
          then delivery_is_uncertain
          else attempt_state_conflict)
      else if not (is_undefined (send_claim_of i))
      then blocked_in i.state fence_replay_or_wrong_execution
      else if not (valid_fence js i)
      then blocked_in i.state fence_invalid
      else if not (validate_fence_commit_receipt js i)
      then blocked_in i.state fence_replay_or_wrong_execution
      else after_page i.state (landing_page_ready js i)
          (candidate fenced_ready_to_send first_send_cas_candidate)

  -- The receipt of the first message is in order: none of the tests that refuse it holds. A
  -- `null` time is refused, and so is the time 0. `id` is the conversation of the page's URL.
  unfoldable pub is_coherent_receipt : BootstrapFenceInput → (receipt : Value) → (id : Text) → Bool
  is_coherent_receipt i receipt id =
      let fence = fence_of i in
      let claim = send_claim_of i in
      let now = valid_iso_utc js i.now_iso in
      let observed = valid_iso_utc js (get i.page (text "observedAt")) in
      let sent_at = valid_iso_utc js (get receipt (text "sendStartedAt")) in
      let confirmed_at = valid_iso_utc js (get receipt (text "confirmedAt")) in
      let claimed_at = valid_iso_utc js (get claim (text "claimedAt")) in
      is_truthy receipt
      && is_text (get receipt (text "event")) (text "FIRST_MESSAGE_CREATED_CONVERSATION")
      && is_for_request receipt i.request
      && same_field receipt (text "fenceId") fence (text "fenceId")
      && same_field receipt (text "fenceCommitSha") fence (text "commitSha")
      && same_field receipt (text "sendClaimId") claim (text "claimId")
      && same_field receipt (text "sendClaimCommitSha") claim (text "commitSha")
      && is_text (get receipt (text "beforeUrl")) landing_url
      && is_after_url js (get receipt (text "afterUrl")) id
      && is_text (get receipt (text "conversationId")) id
      && is_nonzero sent_at
      && is_nonzero confirmed_at
      && is_ordered 0 claimed_at sent_at
      && is_ordered 0 sent_at confirmed_at
      && is_ordered clock_skew_ms confirmed_at observed
      && is_ordered clock_skew_ms confirmed_at now
      && not (includes_text (elements (get i.github (text "priorConversationIds"))) id)

  -- `CONFIRM_NEW_CONVERSATION`, once the fence, the claim and the page were tested
  unfoldable pub confirm_receipt : BootstrapFenceInput → BootstrapFenceResult
  confirm_receipt i =
      let receipt = get i.browser (text "firstMessageReceipt") in
      let prior = elements (get i.github (text "priorConversationIds")) in
      let refusal = blocked_in i.state (
        if includes_text prior (text_or_empty (get receipt (text "conversationId")))
        then conversation_id_reused
        else first_message_receipt_invalid) in
      elim (page_conversation js i) [
        | none ↦ refusal
        | some id ↦
            if is_coherent_receipt i receipt id
            then candidate confirmed_new_conversation new_conversation_candidate
            else refusal
      ]

  -- `CONFIRM_NEW_CONVERSATION`
  unfoldable pub confirm_conversation : BootstrapFenceInput → BootstrapFenceResult
  confirm_conversation i =
      if not (is_state i.state fenced_may_have_sent) || not (is_delivery i.delivery may_have_sent)
      then blocked_in i.state (
          if is_state i.state authorized_prepare
          then durable_fence_required
          else attempt_state_conflict)
      else if not (valid_fence js i)
      then blocked_in i.state fence_invalid
      else if not (valid_send_claim js i)
      then blocked_in delivery_uncertain delivery_is_uncertain
      else after_page i.state (thread_page_ready js i) (confirm_receipt i)

  unfoldable pub handle_event : BootstrapFenceInput → BootstrapFenceResult
  handle_event i = elim i.event [
    | prepare ↦ prepare_attempt i
    | verify_fence_commit ↦ verify_fence i
    | confirm_new_conversation ↦ confirm_conversation i
    | mark_delivery_uncertain ↦ mark_uncertain i
    | recover_after_restart ↦ blocked invalid_input
  ]

  -- The events but the recovery.
  unfoldable pub proceed : BootstrapFenceInput → BootstrapFenceResult
  proceed i = elim (stopped_by_state i) [
    | some result ↦ result
    | none ↦
        if not (target_matches_request i) then blocked browser_target_conflict else handle_event i
  ]

  unfoldable pub evaluate_input : BootstrapFenceInput → BootstrapFenceResult
  evaluate_input i =
      if not (is_assigned i)
      then blocked github_assignment_conflict
      else if not (same_field i.github (text "currentHeadSha") i.request (text "headSha"))
      then blocked github_head_changed
      else if not (is_truthy (get i.github (text "prOpen")))
      then blocked pr_not_runnable
      else if not (same_field i.github (text "currentAttemptId") i.request (text "attemptId"))
      then blocked attempt_not_authorized
      else if not (is_truthy (get i.github (text "previousAttemptResolved")))
      then blocked previous_attempt_unresolved
      else if not (has_valid_history i)
      then blocked prior_history_invalid
      else if is_none (valid_iso_utc js (get i.github (text "attemptAuthorizedAt")))
      then blocked invalid_input
      else if not (is_undefined (send_claim_of i)) && not (is_state i.state fenced_may_have_sent)
      then blocked_in i.state fence_replay_or_wrong_execution
      else if is_event i.event recover_after_restart
      then recover i
      else proceed i

  unfoldable pub evaluate_bootstrap_fence : Value → BootstrapFenceResult
  evaluate_bootstrap_fence input = elim (read_input input) [
    | none ↦ blocked invalid_input
    | some i ↦ evaluate_input i
  ]
