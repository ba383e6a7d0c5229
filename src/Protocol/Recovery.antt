-- ===== src/Protocol/Recovery.antt =====
-- Recovery after a reconnect: `planRecovery` of `cloudflare-relay/src/protocol.js`.
pub mod Wakes
use bke_worker.Prelude.{
  not, ℕ, Bool, false, ◌&&◌, List, [], ◌∷◌, ◌++◌, Option, none, some, ◌==◌, if◌then◌else◌,
}
use bke_worker.Text.{Text, text, text_eq}
use bke_worker.Text.Decimal.{decimal}
use bke_worker.Protocol.Patterns.{control_repository}
use bke_worker.Protocol.Wake.{Wake}
use bke_worker.Protocol.Active.{Phase, Active, is_queued}

-- An entry of the list that `normalizeRecoveryAssignments` returns.
pub record Assignment : Type 0 where
  pub worker_id : Text
  pub number : ℕ
  pub head_ref : Text
  pub head_sha : Text

pub data Plan : Type 0 where
  conflict : Plan
  waiting_for_assignment : Plan
  preserved_active_assignment : Assignment → Phase → Text → Plan
  head_converged_without_redelivery : Assignment → Wake → Plan
  recovered : Assignment → Wake → Plan

unfoldable pub recovery_delivery_id : Assignment → Text
recovery_delivery_id a =
    text "recovery-" ++ (a.worker_id ++ (b'-' ∷ (decimal a.number ++ (b'-' ∷ a.head_sha))))

unfoldable pub recovery_wake : Assignment → Wake
unfolding recovery_delivery_id
recovery_wake a = record {
  worker_id = a.worker_id;
  repo = control_repository;
  pr_number = a.number;
  expected_head_sha = a.head_sha;
  reason = text "github_pull_request_reconnect_recovery";
  delivery_id = recovery_delivery_id a;
}

-- `active?.wake?.pr_number === assignment.number`
unfoldable pub same_active_pr : Assignment → Option Active → Bool
same_active_pr a none = false
same_active_pr a (some act) = act.wake.pr_number == a.number

unfoldable pub plan_one : Assignment → Option Active → Plan
unfolding same_active_pr
plan_one a none = recovered a (recovery_wake a)
plan_one a (some act) =
    let same_pr = same_active_pr a (some act) in
    let same_head = same_pr && text_eq act.wake.expected_head_sha a.head_sha in
    if same_head && not (is_queued act.phase)
    then preserved_active_assignment a act.phase act.wake.delivery_id
    else if same_pr && not (is_queued act.phase)
    then head_converged_without_redelivery a (recovery_wake a)
    else recovered a (recovery_wake a)

unfoldable pub plan_recovery : List Assignment → Option Active → Plan
unfolding plan_one
plan_recovery [] active = waiting_for_assignment
plan_recovery (a ∷ []) active = plan_one a active
plan_recovery (a ∷ b ∷ rest) active = conflict
