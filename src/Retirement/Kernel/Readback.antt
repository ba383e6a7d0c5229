-- ===== src/Retirement/Kernel/Readback.antt =====
-- What is read back confirms what the transaction wrote: `stageRetirementFenceCandidate` of
-- `cloudflare-relay/src/relay-retirement-transaction-kernel.js`.
use bke_worker.Prelude.{subst, ◌∙◌, ap, ◌&&◌, Option, true, some, refl, ◌≡◌}
use bke_worker.Text.{text, text_eq}
use bke_worker.Js.Value.{same_value, is_num, fields_of, get, is_text_where, Value, num}
use bke_worker.Js.Integer.{pos}
use bke_worker.Retirement.Witness.{Stored}
use bke_worker.Retirement.Kernel.Targets.{
  target_of-IsTarget, same_positive, same_text, one_epoch, same_target-fence, fence-epoch, IsTarget,
}
use bke_worker.Retirement.Fence.{
  validate_retired_fence_record, target_of, spread, make_fence, same_target,
}
use bke_worker.Js.Value.{is_positive_safe}
use bke_worker.Protocol.Patterns.{is_delivery_id}
use bke_worker.Retirement.Kernel.Staging.{
  request_tests, snapshot-canonical, in_transaction-staged, after_staging,
}
use bke_worker.Retirement.Kernel.{
  canonical_of, validate_request, fence_of, in_transaction, snapshot_request, StageResult, Request,
  confirm, Outcome, same_record, check_back, stage_retirement_fence_candidate, staged, staged_shape,
}
use bke_worker.Retirement.Kernel.Targets.{fence}

module _ (t id ms : Value) where
  fence-version : is_num (get (fence t id ms) (text "schema_version")) 1 ≡ true
  unfolding make_fence get text text_eq is_num
  fence-version = refl

  same_record-reads : same_record (fence t id ms) (fence t id ms) ≡ (
      same_target (fence t id ms) (fence t id ms) && same_value id id && true && same_value ms ms)
  unfolding same_record make_fence spread fields_of target_of get text text_eq same_value
  same_record-reads = refl

  same_target-twice :
      same_target (fence t id ms) (fence t id ms) ≡ same_target (fence t id ms) (target_of t)
  unfolding same_target make_fence spread fields_of target_of get text text_eq
  same_target-twice = refl

  same_record-fence :
      IsTarget t
      → is_text_where is_delivery_id id ≡ true
      → is_positive_safe ms ≡ true
      → same_record (fence t id ms) (fence t id ms) ≡ true
  same_record-fence target id_ok ms_ok = rw (
    same_record-reads,
    same_target-twice,
    same_target-fence t id ms target,
    same_text is_delivery_id id id_ok,
    same_positive ms ms_ok,
  )

  check_back-fence :
      (staging : Value → StageResult)
      → IsTarget t
      → is_text_where is_delivery_id id ≡ true
      → is_positive_safe ms ≡ true
      → validate_retired_fence_record (fence t id ms) ≡ true
      → check_back
          (fence t id ms)
          staging
          (some (fence t id ms, get (fence t id ms) (text "epoch")))
        ≡ staging (get (fence t id ms) (text "epoch"))
  unfolding check_back confirm
  check_back-fence staging target id_ok ms_ok valid = rw (
    valid,
    same_record-fence target id_ok ms_ok,
    fence-epoch t id ms,
    one_epoch,
    same_positive _ one_epoch,
  )

check_back-canonical :
    (request : Value)
    → validate_request (canonical_of request) ≡ true
    → validate_retired_fence_record (fence_of (canonical_of request)) ≡ true
    → check_back (fence_of (canonical_of request)) staged_shape (
        some
          (fence_of (canonical_of request), get (fence_of (canonical_of request)) (text "epoch")))
      ≡ staged_shape (num (pos 1))
check_back-canonical request valid ok =
    let (target, id, ms) = request_tests request valid in
    let t = get request (text "target") in
    check_back-fence t _ _ staged_shape (target_of-IsTarget t target) id ms ok
    ∙ ap staged_shape (fence-epoch t _ _)

check_back-fence_of :
    (request : Value) (req : Request)
    → snapshot_request request ≡ some req
    → validate_retired_fence_record (fence_of req) ≡ true
    → check_back
        (fence_of req)
        staged_shape
        (some (fence_of req, get (fence_of req) (text "epoch")))
      ≡ staged_shape (num (pos 1))
check_back-fence_of request req taken ok =
    let (valid, same_request) = snapshot-canonical request req taken in
    subst
      (λ r.
        validate_retired_fence_record (fence_of r) ≡ true
        → check_back (fence_of r) staged_shape (some (fence_of r, get (fence_of r) (text "epoch")))
          ≡ staged_shape (num (pos 1)))
      same_request (check_back-canonical request valid) ok

-- The runtime's transaction commits what the callback returns, and reads come from the storage.
pub record IsCommitting
    (transaction : (Stored → Outcome × Stored) → Stored → Option Outcome × Stored)
    (read_back : Stored → Option (Value × Value)) : Type 0 where
  pub commits :
      (f : Stored → Outcome × Stored) (s : Stored) → transaction f s ≡ (some (f s).0, (f s).1)
  pub reads : (s : Stored) → read_back s ≡ some (s.fence, s.epoch)

-- Over a runtime that commits and reads, what the transaction stages for a request is confirmed:
-- the readback refuses nothing, the answer has the epoch 1, and the storage has the fence.
pub stage-confirmed :
    (transaction : (Stored → Outcome × Stored) → Stored → Option Outcome × Stored)
    (read_back : Stored → Option (Value × Value))
    → IsCommitting transaction read_back
    → (s : Stored) (request : Value) (req : Request) (written : Value)
    → snapshot_request request ≡ some req
    → (in_transaction s req).0 ≡ staged written
    → stage_retirement_fence_candidate transaction read_back s request
      ≡ (staged_shape (num (pos 1)), after_staging s req)
unfolding stage_retirement_fence_candidate
stage-confirmed transaction read_back runtime s request req written taken h =
    let (absent, agreed, ok, same_fence, after) = in_transaction-staged s req written h in
    let runs = runtime.commits (λ t. in_transaction t req) s in
    rw
      (
        taken,
        ap (λ result. result.0) runs ∙ ap some h,
        ap (λ result. result.1) runs ∙ after,
        runtime.reads (after_staging s req),
        same_fence,
        stage_retirement_fence_candidate,
      )
      (ap (λ staging. (staging, after_staging s req))
        (check_back-fence_of request req taken
          (subst (λ v. validate_retired_fence_record v ≡ true) same_fence ok)))
