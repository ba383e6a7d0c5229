-- ===== src/Session/Recover.antt =====
-- A worker asks for its assignment after a reconnect: `recover` of `cloudflare-relay/src/index.js`.
-- What GitHub answers to `recoverAssignedPullRequests` is an argument.
pub mod Reconnect
use bke_worker.Prelude.{Bool, true, false, List, [], ◌∷◌, map, none, some, if◌then◌else◌}
use bke_worker.Text.{Text}
use bke_worker.Js.Value.{Value}
use bke_worker.Protocol.Frames.{validate_recovery_request}
use bke_worker.Protocol.Active.{recovery_required}
use bke_worker.Protocol.Recovery.{Assignment, Plan, plan_recovery}
use bke_worker.Session.State.{Session}
use bke_worker.Session.Dispatch.{replace_active, send_then}
use bke_worker.Session.Reply.{
  Reply, recovery_request_invalid, recovery_failed, recovery_conflict, waiting_for_assignment,
  preserved_active_assignment, head_converged, recovered,
}

-- The list, or the message of the error that was thrown.
pub data Assignments : Type 0 where
  failed : Text → Assignments
  found : List Assignment → Assignments

-- `{...assignment, workerId}`
abbrev pub assigned_to : Text → Assignment → Assignment
assigned_to worker_id a = record a { worker_id = worker_id }

-- What `recover` does with the plan. The list is checked for a conflict before the plan is made,
-- so the first clause is never taken.
unfoldable pub apply_plan : Session → Plan → Session × Reply
apply_plan s Plan.conflict = (s, recovery_conflict [])
apply_plan s Plan.waiting_for_assignment =
    (record s { active = none; queued = none }, waiting_for_assignment)
apply_plan s (Plan.preserved_active_assignment assignment phase delivery) =
    (s, preserved_active_assignment assignment phase delivery)
apply_plan s (Plan.head_converged_without_redelivery assignment wake) = (
  record s { active = some (record { wake = wake; phase = recovery_required }); queued = none },
  head_converged assignment wake.delivery_id,
)
apply_plan s (Plan.recovered assignment wake) =
    send_then (replace_active s wake) (λ was_sent. recovered was_sent assignment wake.delivery_id)

abbrev pub is_many : List Assignment → Bool
is_many (a ∷ b ∷ rest) = true
is_many assignments = false

unfoldable pub recover_with : Session → Text → Assignments → Session × Reply
recover_with s worker_id (failed error) = (s, recovery_failed error)
recover_with s worker_id (found assignments) =
    if is_many assignments
    then (s, recovery_conflict assignments)
    else apply_plan s (plan_recovery (map (assigned_to worker_id) assignments) s.active)

unfoldable pub recover : Session → Text → Value → Assignments → Session × Reply
recover s worker_id value assignments =
    if validate_recovery_request value worker_id
    then recover_with s worker_id assignments
    else (s, recovery_request_invalid)
