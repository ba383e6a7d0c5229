-- ===== src/Attempt/Bootstrap/Tests.antt =====
-- Runs of the fence of `browser-extension/src/bootstrap-fence.ts` on concrete observations, and its
-- theorems at these.
use bke_worker.Attempt.Bootstrap.{
  new_conversation_candidate, first_send_cas_candidate, safe_to_reevaluate_prepare,
  fenced_ready_to_send, confirmed_new_conversation, authorized_prepare, blocked_in, blocked,
  candidate,
}
use bke_worker.Js.Value.{
  is_positive_safe, same_value, is_undefined, text_or_empty, is_text_where, is_num, is_text,
  elements, is_array, is_object, get_field, num, bool, str, end, field, get, obj, Fields, Value,
}
use bke_worker.Attempt.Bootstrap.Evaluate.{
  has_valid_history, is_prior_or_null, is_assigned, mark_uncertain, is_coherent_receipt,
  confirm_receipt, confirm_conversation, verify_fence, prepare_attempt, recover, stopped_by_state,
  handle_event, proceed, evaluate_input, evaluate_bootstrap_fence,
}
use bke_worker.Text.{has_text, starts_with, text_eq, split_at, text, Text}
use bke_worker.Attempt.Fixtures.{
  shared, at, commit_b, browser_with, platform, github_with, request_with, page_with, input_of,
}
use bke_worker.Attempt.Bootstrap.Permits.{leads_to_message, evaluate_leads-IsUntouched, IsUntouched}
use bke_worker.Attempt.Bootstrap.Sends.{evaluate_sends-IsFirstSend, IsFirstSend}
use bke_worker.Attempt.Bootstrap.Confirms.{evaluate_confirms-IsNewConversation, IsNewConversation}
use bke_worker.Attempt.Platform.{
  conversation_id_from_url, valid_iso_utc, parsed_iso, conversation_id_of, conversation_path,
  is_safe_integer, is_number, is_attempt_id, is_identifier, is_identifier_unit, is_iso_utc_millis,
  fits_mask, has_properties, same_field, is_recent, is_ordered, at_most_after, landing_url,
}
use bke_worker.Js.Integer.{pos}
use bke_worker.Attempt.Bootstrap.Pages.{
  is_usable, page_conversation, thread_page_ready, landing_page_ready, page_error,
  current_page_is_fresh, target_matches_request,
}
use bke_worker.Attempt.Bootstrap.Fences.{
  is_nonzero, is_after_url, is_for_request, valid_send_claim, validate_fence_commit_receipt,
  valid_fence,
}
use bke_worker.Attempt.Bootstrap.Reading.{
  read_input, read_choices, is_valid_shape, is_valid_page, is_valid_browser, is_valid_github,
  is_identifier_or_null, is_valid_request, read_ui_state, read_delivery, read_state, read_event,
  read_named,
}
use bke_worker.Attempt.History.{includes_text, dense_valid_history, texts, set_size}
use bke_worker.Protocol.Assignments.{is_truthy}
use bke_worker.Target.Page.{is_safe_index, is_bool, is_string}
use bke_worker.Protocol.Patterns.{
  is_name_unit, is_hex_unit, is_worker_unit, is_lower_or_digit, is_run, is_repo, is_sha,
  is_worker_id,
}
use bke_worker.Prelude.{◌≡◌, every, true, String, refl, ap}

abbrev states : (state delivery : String) → Fields → Fields
states state delivery rest =
    field (text "state") (str (text state))
      (field (text "deliveryKnowledge") (str (text delivery)) rest)

abbrev event : String → Value
event e = request_with (field (text "event") (str (text e)) end)

abbrev fence : Value
fence = obj (
    field (text "durable") (bool true) (
      field (text "fenceId") (str (text "fence-00001")) (
        field (text "commitSha") (str commit_b) (
          field (text "executionId") (str (text "execution-1")) (
            field (text "generation") (num (pos 1))
              (field (text "committedAt") (at "05.000Z") (shared end)))))))

abbrev commit_receipt : Value
commit_receipt = obj (
    field (text "event") (str (text "FENCE_COMMIT_RETURNED")) (
      field (text "fenceId") (str (text "fence-00001")) (
        field (text "commitSha") (str commit_b) (
          field (text "executionId") (str (text "execution-1"))
            (field (text "observedAt") (at "12.000Z") (shared end))))))

abbrev claim : Value
claim = obj (
    field (text "durable") (bool true) (
      field (text "claimId") (str (text "claim-00001")) (
        field (text "commitSha") (str commit_b) (
          field (text "fenceId") (str (text "fence-00001")) (
            field (text "fenceCommitSha") (str commit_b) (
              field (text "executionId") (str (text "execution-1")) (
                field (text "generation") (num (pos 1))
                  (field (text "claimedAt") (at "13.000Z") (shared end)))))))))

abbrev message_receipt : Value
message_receipt = obj (
    field (text "event") (str (text "FIRST_MESSAGE_CREATED_CONVERSATION")) (
      field (text "fenceId") (str (text "fence-00001")) (
        field (text "fenceCommitSha") (str commit_b) (
          field (text "sendClaimId") (str (text "claim-00001")) (
            field (text "sendClaimCommitSha") (str commit_b) (
              field (text "beforeUrl") (str landing_url) (
                field (text "afterUrl") (str (text "https://chatgpt.com/c/conversation-3")) (
                  field (text "conversationId") (str (text "conversation-3")) (
                    field (text "sendStartedAt") (at "14.000Z")
                      (field (text "confirmedAt") (at "16.000Z") (shared end)))))))))))

abbrev landing : Value
landing = page_with "NEW_CHAT_LANDING" "https://chatgpt.com/"

-- The fence is committed, and its receipt was seen.
abbrev sending : Value
sending =
    input_of (event "VERIFY_FENCE_COMMIT")
      (github_with (states "FENCED_READY_TO_SEND" "NOT_SENT" (field (text "fence") fence end)))
      (browser_with landing (field (text "fenceCommitReceipt") commit_receipt end))

-- The first send was claimed, and the page shows a conversation.
abbrev confirming : Value
confirming =
    input_of (event "CONFIRM_NEW_CONVERSATION")
      (github_with (
        states "FENCED_MAY_HAVE_SENT" "MAY_HAVE_SENT"
          (field (text "fence") fence (field (text "sendClaim") claim end))))
      (browser_with (page_with "THREAD" "https://chatgpt.com/c/conversation-3")
        (field (text "firstMessageReceipt") message_receipt end))

-- A restart before any fence.
abbrev restarting : Value
restarting =
    input_of (event "RECOVER_AFTER_RESTART")
      (github_with (states "AUTHORIZED_PREPARE" "NOT_SENT" end)) (browser_with landing end)

sends_once :
    evaluate_bootstrap_fence platform sending
    ≡ candidate fenced_ready_to_send first_send_cas_candidate
unfolding evaluate_bootstrap_fence evaluate_input proceed handle_event stopped_by_state recover
    prepare_attempt verify_fence confirm_conversation confirm_receipt is_coherent_receipt
    mark_uncertain is_assigned is_prior_or_null has_valid_history target_matches_request
    current_page_is_fresh page_error landing_page_ready thread_page_ready page_conversation
    valid_fence validate_fence_commit_receipt valid_send_claim is_for_request is_after_url
    is_nonzero read_named read_event read_state read_delivery read_ui_state is_valid_request
    is_identifier_or_null is_valid_github is_valid_browser is_valid_page is_valid_shape read_choices
    read_input blocked blocked_in candidate at_most_after is_ordered is_recent same_field
    has_properties fits_mask is_iso_utc_millis is_identifier_unit is_identifier is_attempt_id
    is_number is_safe_integer conversation_path conversation_id_of parsed_iso valid_iso_utc
    conversation_id_from_url set_size texts dense_valid_history includes_text is_usable get
    get_field is_object is_array elements is_text is_num is_text_where text_or_empty is_undefined
    same_value is_positive_safe is_truthy is_string is_bool is_safe_index is_worker_id is_sha
    is_repo is_run is_lower_or_digit is_worker_unit is_hex_unit is_name_unit split_at text text_eq
    starts_with has_text every
sends_once = refl

confirms_new :
    evaluate_bootstrap_fence platform confirming
    ≡ candidate confirmed_new_conversation new_conversation_candidate
unfolding evaluate_bootstrap_fence evaluate_input proceed handle_event stopped_by_state recover
    prepare_attempt verify_fence confirm_conversation confirm_receipt is_coherent_receipt
    mark_uncertain is_assigned is_prior_or_null has_valid_history target_matches_request
    current_page_is_fresh page_error landing_page_ready thread_page_ready page_conversation
    valid_fence validate_fence_commit_receipt valid_send_claim is_for_request is_after_url
    is_nonzero read_named read_event read_state read_delivery read_ui_state is_valid_request
    is_identifier_or_null is_valid_github is_valid_browser is_valid_page is_valid_shape read_choices
    read_input blocked blocked_in candidate at_most_after is_ordered is_recent same_field
    has_properties fits_mask is_iso_utc_millis is_identifier_unit is_identifier is_attempt_id
    is_number is_safe_integer conversation_path conversation_id_of parsed_iso valid_iso_utc
    conversation_id_from_url set_size texts dense_valid_history includes_text is_usable get
    get_field is_object is_array elements is_text is_num is_text_where text_or_empty is_undefined
    same_value is_positive_safe is_truthy is_string is_bool is_safe_index is_worker_id is_sha
    is_repo is_run is_lower_or_digit is_worker_unit is_hex_unit is_name_unit split_at text text_eq
    starts_with has_text every
confirms_new = refl

restarts_before :
    evaluate_bootstrap_fence platform restarting
    ≡ candidate authorized_prepare safe_to_reevaluate_prepare
unfolding evaluate_bootstrap_fence evaluate_input proceed handle_event stopped_by_state recover
    prepare_attempt verify_fence confirm_conversation confirm_receipt is_coherent_receipt
    mark_uncertain is_assigned is_prior_or_null has_valid_history target_matches_request
    current_page_is_fresh page_error landing_page_ready thread_page_ready page_conversation
    valid_fence validate_fence_commit_receipt valid_send_claim is_for_request is_after_url
    is_nonzero read_named read_event read_state read_delivery read_ui_state is_valid_request
    is_identifier_or_null is_valid_github is_valid_browser is_valid_page is_valid_shape read_choices
    read_input blocked blocked_in candidate at_most_after is_ordered is_recent same_field
    has_properties fits_mask is_iso_utc_millis is_identifier_unit is_identifier is_attempt_id
    is_number is_safe_integer conversation_path conversation_id_of parsed_iso valid_iso_utc
    conversation_id_from_url set_size texts dense_valid_history includes_text is_usable get
    get_field is_object is_array elements is_text is_num is_text_where text_or_empty is_undefined
    same_value is_positive_safe is_truthy is_string is_bool is_safe_index is_worker_id is_sha
    is_repo is_run is_lower_or_digit is_worker_unit is_hex_unit is_name_unit split_at text text_eq
    starts_with has_text every
restarts_before = refl

evaluate_leads-IsUntouched_example : IsUntouched (get restarting (text "github"))
unfolding candidate
evaluate_leads-IsUntouched_example =
    evaluate_leads-IsUntouched platform restarting (ap (λ r. r.decision) restarts_before)
      (ap (λ r. leads_to_message r.code) restarts_before)

evaluate_sends-IsFirstSend_example :
    IsFirstSend platform
      (get sending (text "request"))
      (get sending (text "github"))
      (get sending (text "browser"))
      (get sending (text "nowIso"))
unfolding candidate
evaluate_sends-IsFirstSend_example =
    evaluate_sends-IsFirstSend platform sending (ap (λ r. r.decision) sends_once)
      (ap (λ r. r.code) sends_once)

evaluate_confirms-IsNewConversation_example :
    (id : Text) × IsNewConversation platform
      (get confirming (text "request"))
      (get confirming (text "github"))
      (get confirming (text "browser"))
      (get confirming (text "nowIso"))
      id
unfolding candidate
evaluate_confirms-IsNewConversation_example =
    evaluate_confirms-IsNewConversation platform confirming (ap (λ r. r.decision) confirms_new)
      (ap (λ r. r.code) confirms_new)
