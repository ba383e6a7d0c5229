-- ===== src/Session/Reply.antt =====
-- The responses of a `WorkerSession` as the code writes them, with the fields of their bodies, and
-- their status codes.
use bke_worker.Prelude.{ℕ, Bool, List}
use bke_worker.Text.{Text}
use bke_worker.Protocol.Active.{Phase}
use bke_worker.Protocol.Recovery.{Assignment}

pub data Reply : Type 0 where
  worker_id_invalid worker_id_conflict not_found : Reply
  relay_unauthorized websocket_upgrade_required switching_protocols : Reply
  wake_invalid : Reply
  duplicate : (delivery : Text) → Reply
  worker_wake_in_flight : (active_pr incoming_pr : ℕ) → Reply
  cross_pr_recovery_not_required : Reply
  self_synchronize_suppressed : (delivery active_delivery : Text) → Reply
  continuation_pr_mismatch : (active_pr incoming_pr : ℕ) → Reply
  continuation_blocked_uncertain : (delivery active_delivery : Text) → Reply
  cross_pr_recovered :
      (was_sent : Bool) (delivery : Text) (superseded_pr : ℕ) (superseded_delivery : Text) → Reply
  reassigned : (was_sent : Bool) (delivery superseded_delivery : Text) → Reply
  superseded : (was_sent : Bool) (delivery superseded_delivery : Text) → Reply
  coalesced_queued : (delivery : Text) → Reply
  started : (was_sent : Bool) (delivery : Text) → Reply
  queued_behind_active : (delivery active_delivery : Text) → Reply
  recovery_request_invalid : Reply
  recovery_failed : (error : Text) → Reply
  recovery_conflict : (assignments : List Assignment) → Reply
  waiting_for_assignment : Reply
  preserved_active_assignment : Assignment → (active_phase : Phase) (delivery : Text) → Reply
  head_converged : Assignment → (delivery : Text) → Reply
  recovered : (was_sent : Bool) → Assignment → (delivery : Text) → Reply

-- The status code of the response.
unfoldable pub status_of : Reply → ℕ
status_of worker_id_invalid = 400
status_of worker_id_conflict = 409
status_of not_found = 404
status_of relay_unauthorized = 401
status_of websocket_upgrade_required = 426
status_of switching_protocols = 101
status_of wake_invalid = 400
status_of (duplicate delivery) = 200
status_of (worker_wake_in_flight active_pr incoming_pr) = 409
status_of cross_pr_recovery_not_required = 409
status_of (continuation_pr_mismatch active_pr incoming_pr) = 409
status_of recovery_request_invalid = 400
status_of (recovery_failed error) = 502
status_of (recovery_conflict assignments) = 409
status_of waiting_for_assignment = 200
status_of (preserved_active_assignment assignment active_phase delivery) = 200
status_of (head_converged assignment delivery) = 200
status_of (recovered was_sent assignment delivery) = 200
status_of reply = 202
