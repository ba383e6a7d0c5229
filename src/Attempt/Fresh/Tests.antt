-- ===== src/Attempt/Fresh/Tests.antt =====
-- A run of the gate of `browser-extension/src/fresh-attempt-gate.ts`, and its theorem at it.
use bke_worker.Attempt.Fresh.Shape.{
  is_valid_target, is_valid_github, is_delivery_name, is_valid_request, read_input,
  evaluate_fresh_attempt,
}
use bke_worker.Js.Value.{
  is_positive_safe, same_value, text_or_empty, is_text_where, is_num, is_text, elements, is_array,
  is_object, get_field, get, end, str, field, obj, Value,
}
use bke_worker.Attempt.Fixtures.{
  platform, page_with, browser_with, shared, github_with, at, request_with, input_of,
}
use bke_worker.Attempt.Fresh.{
  blocked, is_timely, is_reused, is_confirmed_id, conversation_at, is_observed_lately, shows_chat,
  parsed_date, is_confirmation, starts_as_iso, is_sole_target, has_known_history, is_assigned,
  evaluate_conversation, evaluate_target, evaluate_input,
}
use bke_worker.Text.{Text, has_text, starts_with, text_eq, split_at, text}
use bke_worker.Attempt.Platform.{
  conversation_id_from_url, valid_iso_utc, parsed_iso, conversation_id_of, conversation_path,
  is_safe_integer, is_number, is_attempt_id, is_identifier, is_identifier_unit, is_iso_utc_millis,
  fits_mask, has_properties, same_field, is_recent, is_ordered, at_most_after,
}
use bke_worker.Attempt.History.{includes_text, dense_valid_history, texts, set_size}
use bke_worker.Attempt.Bootstrap.Pages.{is_usable}
use bke_worker.Protocol.Assignments.{is_truthy}
use bke_worker.Target.Page.{is_safe_index, is_bool, is_string}
use bke_worker.Protocol.Patterns.{
  is_name_unit, is_hex_unit, is_worker_unit, is_lower_or_digit, is_run, is_repo, is_sha,
  is_worker_id,
}
use bke_worker.Attempt.Fresh.Candidate.{
  evaluate_fresh_attempt-IsFreshConversation, IsFreshConversation,
}
use bke_worker.Prelude.{every, refl}

abbrev confirmation : Value
confirmation = obj (
    field (text "event") (str (text "NEW_CHAT_CREATED")) (
      field (text "beforeUrl") (str (text "https://chatgpt.com/c/conversation-2")) (
        field (text "afterUrl") (str (text "https://chatgpt.com/c/conversation-3")) (
          field (text "newConversationId") (str (text "conversation-3")) (
            field (text "creationStartedAt") (at "02.000Z")
              (field (text "confirmedAt") (at "04.000Z") (shared end)))))))

-- A new conversation after the previous one of two.
abbrev implementing : Value
implementing =
    input_of (request_with (field (text "kind") (str (text "IMPLEMENT")) end))
      (github_with (field (text "currentAttemptDelivery") (str (text "NOT_SENT")) end))
      (browser_with (page_with "THREAD" "https://chatgpt.com/c/conversation-3")
        (field (text "newConversation") confirmation end))

evaluate_fresh_attempt-IsFreshConversation_example :
    (id : Text) × IsFreshConversation platform
      (get implementing (text "request"))
      (get implementing (text "github"))
      (get implementing (text "browser"))
      (get implementing (text "nowIso"))
      id
unfolding evaluate_fresh_attempt read_input evaluate_input evaluate_target evaluate_conversation
    is_assigned has_known_history is_sole_target starts_as_iso is_confirmation parsed_date
    shows_chat is_observed_lately conversation_at is_confirmed_id is_reused is_timely
    is_valid_request is_delivery_name is_valid_github is_valid_target blocked at_most_after
    is_ordered is_recent same_field has_properties fits_mask is_iso_utc_millis is_identifier_unit
    is_identifier is_attempt_id is_number is_safe_integer conversation_path conversation_id_of
    parsed_iso valid_iso_utc conversation_id_from_url set_size texts dense_valid_history
    includes_text is_usable get get_field is_object is_array elements is_text is_num is_text_where
    text_or_empty same_value is_positive_safe is_truthy is_string is_bool is_safe_index is_worker_id
    is_sha is_repo is_run is_lower_or_digit is_worker_unit is_hex_unit is_name_unit split_at text
    text_eq starts_with has_text every
evaluate_fresh_attempt-IsFreshConversation_example =
    evaluate_fresh_attempt-IsFreshConversation platform implementing refl
