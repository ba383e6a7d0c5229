-- ===== src/Attempt/Fresh.antt =====
-- The gate of `browser-extension/src/fresh-attempt-gate.ts`: its results and the tests that
-- `evaluateFreshAttempt` makes, in their order.
pub mod Shape
pub mod Candidate
mod Tests
use bke_worker.Text.{text_eq, text, Text}
use bke_worker.Attempt.Platform.{
  chat_origin, landing_url, is_identifier, clock_skew_ms, is_ordered, fits_mask, is_recent,
  conversation_id_from_url, same_field, valid_iso_utc, Platform,
}
use bke_worker.Js.Value.{
  elements, is_num, is_text_where, str, is_text, get, text_or_empty, same_value, null, Value,
}
use bke_worker.Js.Integer.{ℤ}
use bke_worker.Protocol.Assignments.{is_truthy}
use bke_worker.Attempt.History.{dense_valid_history, includes_text}
use bke_worker.Target.Page.{is_string}
use bke_worker.Attempt.Bootstrap.Pages.{is_usable}
use bke_worker.Prelude.{
  String, false, ◌&&◌, none, take, ◌||◌, some, if◌then◌else◌, not, Bool, Option,
}

pub data GateCode : Type 0 where
  invalid_input github_assignment_conflict github_head_changed pr_not_runnable : GateCode
  attempt_not_authorized previous_attempt_unresolved dispatch_not_new : GateCode
  browser_target_ambiguous chatgpt_ui_unavailable chatgpt_busy : GateCode
  chatgpt_observation_stale fresh_conversation_unconfirmed fresh_conversation_reused : GateCode
  fresh_conversation_stale fresh_conversation_candidate : GateCode

pub data GateDecision : Type 0 where
  blocked_decision candidate_decision : GateDecision

pub data GateAuthority : Type 0 where
  none_granted : GateAuthority

pub record FreshAttemptResult : Type 0 where
  pub decision : GateDecision
  pub code : GateCode
  pub authority : GateAuthority

unfoldable pub blocked : GateCode → FreshAttemptResult
blocked c = record { decision = blocked_decision; code = c; authority = none_granted }

-- `FreshAttemptInput`, once its shape was tested
pub record FreshAttemptInput : Type 0 where
  pub request : Value
  pub github : Value
  pub target : Value
  pub page : Value
  pub now_iso : Value

-- The pull request is assigned to the worker of the request, and to no other.
unfoldable pub is_assigned : FreshAttemptInput → Bool
is_assigned i =
    same_field i.github (text "repository") i.request (text "repository")
    && same_field i.github (text "prNumber") i.request (text "prNumber")
    && same_field i.github (text "assignedWorkerId") i.request (text "workerId")
    && is_num (get i.github (text "workerOpenPrAssignments")) 1
    && is_num (get i.github (text "prAssignedWorkerCount")) 1

-- The history is valid, and the previous conversation is `null` or an identifier that it has.
unfoldable pub has_known_history : FreshAttemptInput → Bool
has_known_history i =
    let previous = get i.github (text "previousConversationId") in
    let history = get i.github (text "priorConversationIds") in
    (same_value previous null || is_text_where is_identifier previous)
    && dense_valid_history history
    && (same_value previous null || includes_text (elements history) (text_or_empty previous))
    && is_string (get i.github (text "attemptAuthorizedAt"))

-- One writable target that no other profile shares, whose tab the page is in.
unfoldable pub is_sole_target : FreshAttemptInput → Bool
is_sole_target i =
    not (is_truthy (get i.target (text "sharedWritableProfile")))
    && is_num (get i.target (text "matchingWritableTargetCount")) 1
    && same_field i.page (text "tabId") i.target (text "ownedTargetTabId")

-- /^\d{4}-\d\d-\d\dT/
unfoldable pub starts_as_iso : Text → Bool
starts_as_iso t = fits_mask (text "dddd-dd-ddT") (take 11 t)

-- A conversation's id as a value, `null` if there is none
abbrev pub id_value : Option Text → Value
id_value none = null
id_value (some id) = str id

abbrev pub confirmation_of : FreshAttemptInput → Value
confirmation_of i = get i.target (text "newConversation")

-- The confirmation is for the request's attempt, worker and head, and for the target's tab.
unfoldable pub is_confirmation : FreshAttemptInput → Bool
is_confirmation i =
    let c = confirmation_of i in
    is_truthy c
    && is_text (get c (text "event")) (text "NEW_CHAT_CREATED")
    && same_field c (text "attemptId") i.request (text "attemptId")
    && same_field c (text "workerId") i.request (text "workerId")
    && same_field c (text "headSha") i.request (text "headSha")
    && same_field c (text "targetTabId") i.target (text "ownedTargetTabId")
    && is_string (get c (text "beforeUrl"))
    && is_string (get c (text "afterUrl"))
    && is_string (get c (text "newConversationId"))
    && is_string (get c (text "creationStartedAt"))
    && is_string (get c (text "confirmedAt"))

module _ (js : Platform) where
  -- `Date.parse(v)`, of a string
  unfoldable pub parsed_date : Value → Option ℤ
  parsed_date v = js.parse_date (text_or_empty v)

  unfoldable pub shows_chat : FreshAttemptInput → Bool
  shows_chat i = elim (js.parse_url (text_or_empty (get i.page (text "url")))) [
    | none ↦ false
    | some url ↦
        text_eq url.protocol (text "https:") && text_eq url.origin chat_origin && is_usable i.page
  ]

  unfoldable pub is_observed_lately : FreshAttemptInput → Bool
  is_observed_lately i =
      is_recent (parsed_date i.now_iso) (parsed_date (get i.page (text "observedAt")))
      && starts_as_iso (text_or_empty (get i.page (text "observedAt")))
      && starts_as_iso (text_or_empty i.now_iso)

  -- The conversation that a URL among the values names, if it names one.
  unfoldable pub conversation_at : (v : Value) (key : Text) → Option Text
  conversation_at v key = conversation_id_from_url js (text_or_empty (get v key))

  -- The page and the confirmation name the conversation `id`, and the confirmation starts from the
  -- previous conversation, or from the landing page if there is none.
  unfoldable pub is_confirmed_id : FreshAttemptInput → (id : Text) → Bool
  is_confirmed_id i id =
      let c = confirmation_of i in
      let previous = get i.github (text "previousConversationId") in
      same_value (str id) (id_value (conversation_at c (text "afterUrl")))
      && is_text_where is_identifier (get c (text "newConversationId"))
      && is_text (get c (text "newConversationId")) id
      && (if same_value previous null
          then is_text (get c (text "beforeUrl")) landing_url
          else same_value (id_value (conversation_at c (text "beforeUrl"))) previous)

  unfoldable pub is_reused : FreshAttemptInput → (id : Text) → Bool
  is_reused i id =
      same_value (str id) (id_value (conversation_at (confirmation_of i) (text "beforeUrl")))
      || same_value (str id) (get i.github (text "previousConversationId"))
      || includes_text (elements (get i.github (text "priorConversationIds"))) id

  unfoldable pub is_timely : FreshAttemptInput → Bool
  is_timely i =
      let c = confirmation_of i in
      let authorized_at = valid_iso_utc js (get i.github (text "attemptAuthorizedAt")) in
      let start = valid_iso_utc js (get c (text "creationStartedAt")) in
      let confirmed_at = valid_iso_utc js (get c (text "confirmedAt")) in
      is_ordered clock_skew_ms authorized_at start
      && is_ordered 0 start confirmed_at
      && is_ordered clock_skew_ms confirmed_at (parsed_date (get i.page (text "observedAt")))
      && is_ordered clock_skew_ms confirmed_at (parsed_date i.now_iso)

  -- From the conversation of the page's URL to the end.
  unfoldable pub evaluate_conversation : FreshAttemptInput → FreshAttemptResult
  evaluate_conversation i = elim (conversation_at i.page (text "url")) [
    | none ↦ blocked fresh_conversation_unconfirmed
    | some id ↦
        if not (is_confirmed_id i id)
        then blocked fresh_conversation_unconfirmed
        else if is_reused i id
        then blocked fresh_conversation_reused
        else if not (is_timely i)
        then blocked fresh_conversation_stale
        else record {
          decision = candidate_decision;
          code = fresh_conversation_candidate;
          authority = none_granted;
        }
  ]

  -- From the tests of the browser's target to the end.
  unfoldable pub evaluate_target : FreshAttemptInput → FreshAttemptResult
  evaluate_target i =
      if not (is_sole_target i)
      then blocked browser_target_ambiguous
      else if not (shows_chat i)
      then blocked chatgpt_ui_unavailable
      else if is_truthy (get i.page (text "turnBusy"))
      then blocked chatgpt_busy
      else if not (is_observed_lately i)
      then blocked chatgpt_observation_stale
      else if not (is_confirmation i)
      then blocked fresh_conversation_unconfirmed
      else evaluate_conversation i

  -- From the tests of GitHub's observation to the end.
  unfoldable pub evaluate_input : FreshAttemptInput → FreshAttemptResult
  evaluate_input i =
      if not (is_assigned i)
      then blocked github_assignment_conflict
      else if not (same_field i.github (text "currentHeadSha") i.request (text "headSha"))
      then blocked github_head_changed
      else if not (is_truthy (get i.github (text "prOpen")))
      then blocked pr_not_runnable
      else if not (same_field i.github (text "currentAttemptId") i.request (text "attemptId"))
      then blocked attempt_not_authorized
      else if not (is_truthy (get i.github (text "previousAttemptResolved")))
      then blocked previous_attempt_unresolved
      else if not (is_text (get i.github (text "currentAttemptDelivery")) (text "NOT_SENT"))
      then blocked dispatch_not_new
      else if not (has_known_history i)
      then blocked fresh_conversation_unconfirmed
      else evaluate_target i
