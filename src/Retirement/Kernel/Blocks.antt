-- ===== src/Retirement/Kernel/Blocks.antt =====
-- A staged fence blocks: `inspectRetirementOperation` of
-- `cloudflare-relay/src/relay-retirement-fence-policy.js` on a fence that the kernel staged.
use bke_worker.Prelude.{subst, true, false, some, arith, ◌≡◌}
use bke_worker.Js.Value.{get, is_undefined, text_or_empty, is_text_where, Value, str}
use bke_worker.Retirement.Kernel.{
  fence_of, in_transaction, canonical_of, snapshot_request, validate_request, Request, staged,
}
use bke_worker.Text.{text, has_text, Text}
use bke_worker.Retirement.Witness.{Stored}
use bke_worker.Retirement.Kernel.Staging.{in_transaction-staged, snapshot-canonical, request_tests}
use bke_worker.Retirement.Kernel.Targets.{target_of-IsTarget, same_target-fence, is_undefined-fence}
use bke_worker.Retirement.Fence.{
  same_target, fenced_operations, validate_retired_fence_record, validate_retirement_target,
  inspect_retirement_operation, worker_retired,
}

inspect-retired :
    (persisted target : Value) (operation : Text)
    → validate_retirement_target target ≡ true
    → has_text fenced_operations operation ≡ true
    → is_undefined persisted ≡ false
    → validate_retired_fence_record persisted ≡ true
    → same_target persisted target ≡ true
    → inspect_retirement_operation persisted target (str operation) ≡ worker_retired operation
unfolding inspect_retirement_operation is_text_where text_or_empty
inspect-retired persisted target operation a b c d e = ground arith

canonical-retired :
    (request : Value) (operation : Text)
    → validate_request (canonical_of request) ≡ true
    → validate_retired_fence_record (fence_of (canonical_of request)) ≡ true
    → has_text fenced_operations operation ≡ true
    → inspect_retirement_operation
        (fence_of (canonical_of request))
        (canonical_of request).target
        (str operation)
      ≡ worker_retired operation
canonical-retired request operation valid ok fenced =
    let (target, id, ms) = request_tests request valid in
    let t = get request (text "target") in
    inspect-retired _ _ operation target fenced (is_undefined-fence t _ _) ok
      (same_target-fence t _ _ (target_of-IsTarget t target))

-- Once the transaction has staged a fence for a request, the policy answers every fenced operation
-- on the request's target with the retirement of the worker.
pub staged-retired :
    (request : Value) (req : Request) (s : Stored) (operation : Text)
    → snapshot_request request ≡ some req
    → (in_transaction s req).0 ≡ staged (fence_of req)
    → has_text fenced_operations operation ≡ true
    → inspect_retirement_operation (in_transaction s req).1.fence req.target (str operation)
      ≡ worker_retired operation
staged-retired request req s operation taken h fenced =
    let (valid, same_request) = snapshot-canonical request req taken in
    let (absent, agreed, ok, same_fence, after) = in_transaction-staged s req _ h in
    rw after (
      subst
        (λ r.
          validate_retired_fence_record (fence_of r) ≡ true
          → inspect_retirement_operation (fence_of r) r.target (str operation)
            ≡ worker_retired operation)
        same_request (λ fine. canonical-retired request operation valid fine fenced) ok)
