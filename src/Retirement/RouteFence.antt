-- ===== src/Retirement/RouteFence.antt =====
-- The fence as a route would ask for it: `capture` and `inspectInsideTransaction` of
-- `cloudflare-relay/src/relay-retirement-route-fence.js`.
pub mod Staged
mod Tests
use bke_worker.Js.Value.{is_text_where, is_undefined, get, same_value, Value}
use bke_worker.Retirement.Witness.{Stored}
use bke_worker.Text.{has_text, text}
use bke_worker.Js.Keys.{exact}
use bke_worker.Retirement.Fence.{
  fenced_operations, target_of, same_target, validate_retirement_target,
  validate_retired_fence_record, target_keys,
}
use bke_worker.Js.Value.{is_positive_safe}
use bke_worker.Prelude.{◌&&◌, ◌∷◌, Option, not, ℕ, true, false, [], none, some, if◌then◌else◌}

pub record Captured : Type 0 where
  pub target : Value
  pub operation : Value

pub data RouteDecision : Type 0 where
  persisted_worker_id_mismatch fence_absent_unverified : RouteDecision
  fence_epoch_inconsistent fence_target_mismatch : RouteDecision
  worker_retired : (operation : Value) → RouteDecision

-- The input's target and operation, with the target copied.
unfoldable pub capture : Value → Option Captured
capture input =
    let target = get input (text "target") in
    let operation = get input (text "operation") in
    if exact input (text "target" ∷ text "operation" ∷ [])
      && exact target target_keys
      && validate_retirement_target (target_of target)
      && is_text_where (has_text fenced_operations) operation
    then some (record { target = target_of target; operation = operation })
    else none

unfoldable pub inspect_inside_transaction : Stored → Captured → RouteDecision
inspect_inside_transaction s expected =
    if not (same_value s.worker_id (get expected.target (text "worker_id")))
    then persisted_worker_id_mismatch
    else if is_undefined s.fence && is_undefined s.epoch
    then fence_absent_unverified
    else if not (
        validate_retired_fence_record s.fence
        && is_positive_safe s.epoch
        && same_value (get s.fence (text "epoch")) s.epoch)
    then fence_epoch_inconsistent
    else if not (same_target s.fence expected.target)
    then fence_target_mismatch
    else worker_retired expected.operation
