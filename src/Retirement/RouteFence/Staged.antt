-- ===== src/Retirement/RouteFence/Staged.antt =====
-- A route finds the fence that the kernel staged: `inspectInsideTransaction` of
-- `cloudflare-relay/src/relay-retirement-route-fence.js` over the storage that `inTransaction` of
-- `cloudflare-relay/src/relay-retirement-transaction-kernel.js` leaves.
use bke_worker.Prelude.{subst, true, false, none, some, arith, ◌≡◌}
use bke_worker.Js.Value.{is_undefined, get, same_value, Value}
use bke_worker.Retirement.Kernel.{
  fence_of, in_transaction, canonical_of, validate_request, snapshot_request, Request, wake_refusal,
  staged,
}
use bke_worker.Retirement.Witness.{Stored, read_relay_retirement_witness}
use bke_worker.Text.{text}
use bke_worker.Retirement.Fence.{same_target, validate_retired_fence_record}
use bke_worker.Js.Value.{is_positive_safe}
use bke_worker.Retirement.Kernel.Staging.{
  in_transaction-staged, request_tests, after_staging, snapshot-canonical,
}
use bke_worker.Retirement.Kernel.Targets.{
  target_of-IsTarget, same_target-fence, same_positive, one_epoch, is_undefined-fence, fence-epoch,
}
use bke_worker.Retirement.RouteFence.{Captured, inspect_inside_transaction, worker_retired}

-- The kernel agrees with the stored wakes only of the worker that the storage belongs to.
wake_refusal-identity :
    (s : Stored) (req : Request)
    → wake_refusal s req ≡ none
    → same_value s.worker_id (get req.target (text "worker_id")) ≡ true
unfolding wake_refusal read_relay_retirement_witness
wake_refusal-identity s req h = ground arith

inspect-fenced :
    (s : Stored) (expected : Captured)
    → same_value s.worker_id (get expected.target (text "worker_id")) ≡ true
    → is_undefined s.fence ≡ false
    → validate_retired_fence_record s.fence ≡ true
    → is_positive_safe s.epoch ≡ true
    → same_value (get s.fence (text "epoch")) s.epoch ≡ true
    → same_target s.fence expected.target ≡ true
    → inspect_inside_transaction s expected ≡ worker_retired expected.operation
unfolding inspect_inside_transaction
inspect-fenced s expected a b c d e f = ground arith

canonical-fenced :
    (request : Value) (s : Stored) (operation : Value)
    → validate_request (canonical_of request) ≡ true
    → wake_refusal s (canonical_of request) ≡ none
    → validate_retired_fence_record (fence_of (canonical_of request)) ≡ true
    → inspect_inside_transaction
        (after_staging s (canonical_of request))
        (record { target = (canonical_of request).target; operation = operation })
      ≡ worker_retired operation
canonical-fenced request s operation valid agreed ok =
    let (target, id, ms) = request_tests request valid in
    let t = get request (text "target") in
    let epoch_one =
      fence-epoch t (get request (text "retirement_id")) (get request (text "created_at_ms")) in
    inspect-fenced (after_staging s (canonical_of request)) _
      (wake_refusal-identity s (canonical_of request) agreed) (is_undefined-fence t _ _) ok
      (rw epoch_one one_epoch) (rw epoch_one (same_positive _ one_epoch))
      (same_target-fence t _ _ (target_of-IsTarget t target))

-- Over the storage in which a fence was staged for a request, a route that asks for the request's
-- target, by whatever operation, is told that the worker is retired.
pub staged-fenced :
    (request : Value) (req : Request) (s : Stored) (operation : Value)
    → snapshot_request request ≡ some req
    → (in_transaction s req).0 ≡ staged (fence_of req)
    → inspect_inside_transaction
        (in_transaction s req).1
        (record { target = req.target; operation = operation })
      ≡ worker_retired operation
staged-fenced request req s operation taken h =
    let (valid, same_request) = snapshot-canonical request req taken in
    let (absent, agreed, ok, same_fence, after) = in_transaction-staged s req _ h in
    rw after (
      subst
        (λ r.
          wake_refusal s r ≡ none
          → validate_retired_fence_record (fence_of r) ≡ true
          → inspect_inside_transaction (after_staging s r)
              (record { target = r.target; operation = operation })
            ≡ worker_retired operation)
        same_request (canonical-fenced request s operation valid) agreed ok)
