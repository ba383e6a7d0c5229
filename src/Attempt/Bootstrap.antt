-- ===== src/Attempt/Bootstrap.antt =====
-- The results of `browser-extension/src/bootstrap-fence.ts`, and its input, read and typed.
pub mod Reading
pub mod Pages
pub mod Fences
pub mod Evaluate
pub mod Cleared
pub mod Candidates
pub mod Named
pub mod Permits
pub mod Sends
pub mod Confirms
mod Tests
pub mod Agreement
use bke_worker.Prelude.{◌==◌, Bool, ℕ}
use bke_worker.Js.Value.{bool, Value}

pub data BootstrapState : Type 0 where
  unauthorized authorized_prepare fenced_ready_to_send fenced_may_have_sent : BootstrapState
  confirmed_new_conversation delivery_uncertain blocked_state : BootstrapState

pub data BootstrapEvent : Type 0 where
  prepare verify_fence_commit confirm_new_conversation : BootstrapEvent
  mark_delivery_uncertain recover_after_restart : BootstrapEvent

pub data DeliveryKnowledge : Type 0 where
  not_sent may_have_sent confirmed uncertain : DeliveryKnowledge

pub data ChatUiState : Type 0 where
  new_chat_landing thread busy auth_required unknown : ChatUiState

-- The places of the choices, by which two of one kind are compared.
abbrev pub state_place : BootstrapState → ℕ
state_place unauthorized = 0
state_place authorized_prepare = 1
state_place fenced_ready_to_send = 2
state_place fenced_may_have_sent = 3
state_place confirmed_new_conversation = 4
state_place delivery_uncertain = 5
state_place blocked_state = 6

abbrev pub event_place : BootstrapEvent → ℕ
event_place prepare = 0
event_place verify_fence_commit = 1
event_place confirm_new_conversation = 2
event_place mark_delivery_uncertain = 3
event_place recover_after_restart = 4

abbrev pub delivery_place : DeliveryKnowledge → ℕ
delivery_place not_sent = 0
delivery_place may_have_sent = 1
delivery_place confirmed = 2
delivery_place uncertain = 3

abbrev pub ui_state_place : ChatUiState → ℕ
ui_state_place new_chat_landing = 0
ui_state_place thread = 1
ui_state_place busy = 2
ui_state_place auth_required = 3
ui_state_place unknown = 4

abbrev pub is_state : BootstrapState → BootstrapState → Bool
is_state s t = state_place s == state_place t

abbrev pub is_event : BootstrapEvent → BootstrapEvent → Bool
is_event e f = event_place e == event_place f

abbrev pub is_delivery : DeliveryKnowledge → DeliveryKnowledge → Bool
is_delivery d k = delivery_place d == delivery_place k

abbrev pub is_ui_state : ChatUiState → ChatUiState → Bool
is_ui_state u v = ui_state_place u == ui_state_place v

pub data BootstrapCode : Type 0 where
  invalid_input github_assignment_conflict github_head_changed pr_not_runnable : BootstrapCode
  attempt_not_authorized previous_attempt_unresolved prior_history_invalid : BootstrapCode
  attempt_state_conflict durable_fence_required fence_invalid : BootstrapCode
  fence_replay_or_wrong_execution browser_target_conflict chatgpt_auth_required : BootstrapCode
  chatgpt_busy chatgpt_ui_unavailable observation_stale : BootstrapCode
  first_message_receipt_invalid conversation_id_reused fence_candidate : BootstrapCode
  prepare_candidate first_send_cas_candidate new_conversation_candidate : BootstrapCode
  delivery_is_uncertain safe_to_reevaluate_prepare attempt_terminal : BootstrapCode

pub data Decision : Type 0 where
  refused candidate_only : Decision

pub data Authority : Type 0 where
  no_authority : Authority

pub record BootstrapFenceResult : Type 0 where
  pub decision : Decision
  pub state : BootstrapState
  pub code : BootstrapCode
  pub authority : Authority

-- `BootstrapFenceInput`, once its shape was tested: the parts as they were read, and the four
-- strings that stand for a choice.
pub record BootstrapFenceInput : Type 0 where
  pub request : Value
  pub github : Value
  pub browser : Value
  pub page : Value
  pub now_iso : Value
  pub event : BootstrapEvent
  pub state : BootstrapState
  pub delivery : DeliveryKnowledge
  pub ui_state : ChatUiState

unfoldable pub blocked_in : BootstrapState → BootstrapCode → BootstrapFenceResult
blocked_in s c = record { decision = refused; state = s; code = c; authority = no_authority }

-- `blocked(code)`, whose state is `"BLOCKED"`
unfoldable pub blocked : BootstrapCode → BootstrapFenceResult
blocked c = blocked_in blocked_state c

unfoldable pub candidate : BootstrapState → BootstrapCode → BootstrapFenceResult
candidate s c = record { decision = candidate_only; state = s; code = c; authority = no_authority }
