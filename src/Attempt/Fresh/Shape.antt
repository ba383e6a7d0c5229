-- ===== src/Attempt/Fresh/Shape.antt =====
-- The start of `evaluateFreshAttempt` of `browser-extension/src/fresh-attempt-gate.ts`: the tests
-- of
-- the shape of its input.
use bke_worker.Attempt.Platform.{
  is_attempt_id, is_safe_integer, is_number, has_properties, Platform,
}
use bke_worker.Prelude.{some, ◌||◌, ◌&&◌, if◌then◌else◌, none, Option, Bool}
use bke_worker.Attempt.Fresh.{
  evaluate_input, invalid_input, blocked, FreshAttemptInput, FreshAttemptResult,
}
use bke_worker.Target.Page.{is_safe_index, is_string, is_bool}
use bke_worker.Text.{text}
use bke_worker.Protocol.Patterns.{is_repo, is_worker_id, is_sha}
use bke_worker.Protocol.Assignments.{is_truthy}
use bke_worker.Js.Value.{is_positive_safe, get, is_text, is_text_where, is_num, Value}

unfoldable pub is_valid_request : Value → Bool
is_valid_request req =
    is_num (get req (text "protocolVersion")) 1
    && is_text_where is_worker_id (get req (text "workerId"))
    && is_text_where is_repo (get req (text "repository"))
    && is_positive_safe (get req (text "prNumber"))
    && is_text_where is_sha (get req (text "headSha"))
    && is_text_where is_attempt_id (get req (text "attemptId"))
    && (is_text (get req (text "kind")) (text "IMPLEMENT")
        || is_text (get req (text "kind")) (text "REMEDIATE"))

unfoldable pub is_delivery_name : Value → Bool
is_delivery_name v =
    is_text v (text "NOT_SENT")
    || is_text v (text "IN_FLIGHT")
    || is_text v (text "UNCERTAIN")
    || is_text v (text "COMPLETED")

unfoldable pub is_valid_github : Value → Bool
is_valid_github gh =
    is_text_where is_sha (get gh (text "currentHeadSha"))
    && is_string (get gh (text "assignedWorkerId"))
    && is_number (get gh (text "workerOpenPrAssignments"))
    && is_number (get gh (text "prAssignedWorkerCount"))
    && is_bool (get gh (text "previousAttemptResolved"))
    && is_bool (get gh (text "prOpen"))
    && is_string (get gh (text "currentAttemptId"))
    && is_delivery_name (get gh (text "currentAttemptDelivery"))

unfoldable pub is_valid_target : (target page : Value) → Bool
is_valid_target target page =
    is_bool (get target (text "sharedWritableProfile"))
    && is_string (get page (text "url"))
    && is_string (get page (text "observedAt"))
    && is_bool (get page (text "visible"))
    && is_bool (get page (text "composerAvailable"))
    && is_bool (get page (text "turnBusy"))
    && is_safe_index (get page (text "tabId"))
    && is_safe_index (get target (text "ownedTargetTabId"))
    && is_safe_integer (get target (text "matchingWritableTargetCount"))

unfoldable pub read_input : Value → Option FreshAttemptInput
read_input input =
    let request = get input (text "request") in
    let github = get input (text "github") in
    let target = get input (text "browser") in
    let page = get target (text "current") in
    if has_properties input
      && is_truthy request
      && is_truthy github
      && is_truthy target
      && is_truthy page
      && is_valid_request request
      && is_valid_github github
      && is_valid_target target page
      && is_string (get input (text "nowIso"))
    then some (record {
      request = request;
      github = github;
      target = target;
      page = page;
      now_iso = get input (text "nowIso");
    })
    else none

unfoldable pub evaluate_fresh_attempt : Platform → Value → FreshAttemptResult
evaluate_fresh_attempt js input = elim (read_input input) [
  | none ↦ blocked invalid_input
  | some i ↦ evaluate_input js i
]
