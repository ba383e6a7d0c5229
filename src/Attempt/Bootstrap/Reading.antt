-- ===== src/Attempt/Bootstrap/Reading.antt =====
-- The tests at the start of `evaluateBootstrapFence` of `browser-extension/src/bootstrap-fence.ts`:
-- the shape of its input, whose four choices are read here.
use bke_worker.Js.Value.{
  is_positive_safe, is_text, is_object, is_text_where, get, null, same_value, is_num, Value,
}
use bke_worker.Text.{text, Text}
use bke_worker.Attempt.Bootstrap.{
  blocked_state, delivery_uncertain, unknown, confirmed_new_conversation, recover_after_restart,
  auth_required, mark_delivery_uncertain, fenced_may_have_sent, uncertain, confirm_new_conversation,
  busy, fenced_ready_to_send, confirmed, verify_fence_commit, thread, may_have_sent,
  authorized_prepare, new_chat_landing, not_sent, unauthorized, prepare, ChatUiState,
  BootstrapFenceInput, DeliveryKnowledge, BootstrapState, BootstrapEvent,
}
use bke_worker.Target.Page.{is_bool, is_safe_index, is_string}
use bke_worker.Attempt.Platform.{is_attempt_id, is_identifier, is_safe_integer, is_number}
use bke_worker.Protocol.Patterns.{is_worker_id, is_repo, is_sha}
use bke_worker.Protocol.Assignments.{is_truthy}
use bke_worker.Prelude.{◌>>=◌, [], some, ◌∷◌, if◌then◌else◌, ◌||◌, none, ◌&&◌, Option, Bool, List}

-- The choice that a string names, if it names one.
unfoldable pub read_named {ℓ} : {A : Type ℓ} → List (Text × A) → Value → Option A
read_named [] v = none
read_named ((name, a) ∷ rest) v = if is_text v name then some a else read_named rest v

unfoldable pub read_event : Value → Option BootstrapEvent
read_event v =
    read_named
      ((text "PREPARE", prepare)
        ∷ (text "VERIFY_FENCE_COMMIT", verify_fence_commit)
        ∷ (text "CONFIRM_NEW_CONVERSATION", confirm_new_conversation)
        ∷ (text "MARK_DELIVERY_UNCERTAIN", mark_delivery_uncertain)
        ∷ (text "RECOVER_AFTER_RESTART", recover_after_restart)
        ∷ [])
      v

unfoldable pub read_state : Value → Option BootstrapState
read_state v =
    read_named
      ((text "UNAUTHORIZED", unauthorized)
        ∷ (text "AUTHORIZED_PREPARE", authorized_prepare)
        ∷ (text "FENCED_READY_TO_SEND", fenced_ready_to_send)
        ∷ (text "FENCED_MAY_HAVE_SENT", fenced_may_have_sent)
        ∷ (text "CONFIRMED_NEW_CONVERSATION", confirmed_new_conversation)
        ∷ (text "DELIVERY_UNCERTAIN", delivery_uncertain)
        ∷ (text "BLOCKED", blocked_state)
        ∷ [])
      v

unfoldable pub read_delivery : Value → Option DeliveryKnowledge
read_delivery v =
    read_named
      ((text "NOT_SENT", not_sent)
        ∷ (text "MAY_HAVE_SENT", may_have_sent)
        ∷ (text "CONFIRMED", confirmed)
        ∷ (text "UNCERTAIN", uncertain)
        ∷ [])
      v

unfoldable pub read_ui_state : Value → Option ChatUiState
read_ui_state v =
    read_named
      ((text "NEW_CHAT_LANDING", new_chat_landing)
        ∷ (text "THREAD", thread)
        ∷ (text "BUSY", busy)
        ∷ (text "AUTH_REQUIRED", auth_required)
        ∷ (text "UNKNOWN", unknown)
        ∷ [])
      v

unfoldable pub is_valid_request : Value → Bool
is_valid_request request =
    is_num (get request (text "protocolVersion")) 1
    && is_text_where is_repo (get request (text "repository"))
    && is_text_where is_worker_id (get request (text "workerId"))
    && is_positive_safe (get request (text "prNumber"))
    && is_text_where is_sha (get request (text "headSha"))
    && is_text_where is_attempt_id (get request (text "attemptId"))
    && is_text_where is_attempt_id (get request (text "executionId"))
    && is_text_where is_identifier (get request (text "targetId"))
    && is_text_where is_identifier (get request (text "profileId"))
    && is_safe_index (get request (text "targetTabId"))

-- `v === null || typeof v === "string" && IDENTIFIER.test(v)`
unfoldable pub is_identifier_or_null : Value → Bool
is_identifier_or_null v = same_value v null || is_text_where is_identifier v

unfoldable pub is_valid_github : Value → Bool
is_valid_github github =
    is_string (get github (text "repository"))
    && is_number (get github (text "prNumber"))
    && is_text_where is_sha (get github (text "currentHeadSha"))
    && is_string (get github (text "assignedWorkerId"))
    && is_number (get github (text "workerOpenPrAssignments"))
    && is_number (get github (text "prAssignedWorkerCount"))
    && is_bool (get github (text "prOpen"))
    && is_string (get github (text "currentAttemptId"))
    && is_bool (get github (text "previousAttemptResolved"))
    && is_identifier_or_null (get github (text "previousConversationId"))
    && is_string (get github (text "attemptAuthorizedAt"))

unfoldable pub is_valid_browser : Value → Bool
is_valid_browser browser =
    is_string (get browser (text "ownedTargetId"))
    && is_string (get browser (text "ownedProfileId"))
    && is_safe_index (get browser (text "ownedTargetTabId"))
    && is_safe_integer (get browser (text "matchingWritableTargetCount"))
    && is_bool (get browser (text "profileIsolated"))
    && is_bool (get browser (text "sharedWritableProfile"))

unfoldable pub is_valid_page : Value → Bool
is_valid_page page =
    is_string (get page (text "targetId"))
    && is_string (get page (text "profileId"))
    && is_safe_index (get page (text "tabId"))
    && is_string (get page (text "observedAt"))
    && is_string (get page (text "url"))
    && is_bool (get page (text "visible"))
    && is_bool (get page (text "composerAvailable"))
    && is_bool (get page (text "turnBusy"))

unfoldable pub is_valid_shape : (request github browser now_iso : Value) → Bool
is_valid_shape request github browser now_iso =
    is_valid_request request
    && is_valid_github github
    && is_valid_browser browser
    && is_valid_page (get browser (text "current"))
    && is_string now_iso

-- The parts, with the choices that they name, if each names one.
unfoldable pub read_choices : (request github browser now_iso : Value) → Option BootstrapFenceInput
read_choices request github browser now_iso = do
  e ← read_event (get request (text "event"))
  s ← read_state (get github (text "state"))
  d ← read_delivery (get github (text "deliveryKnowledge"))
  u ← read_ui_state (get (get browser (text "current")) (text "uiState"))
  some (record {
    request = request;
    github = github;
    browser = browser;
    page = get browser (text "current");
    now_iso = now_iso;
    event = e;
    state = s;
    delivery = d;
    ui_state = u;
  })

-- The input, if no test of its shape fails.
unfoldable pub read_input : Value → Option BootstrapFenceInput
read_input input =
    let request = get input (text "request") in
    let github = get input (text "github") in
    let browser = get input (text "browser") in
    let now_iso = get input (text "nowIso") in
    if is_object input
      && is_truthy request
      && is_truthy github
      && is_truthy browser
      && is_truthy (get browser (text "current"))
      && is_valid_shape request github browser now_iso
    then read_choices request github browser now_iso
    else none
