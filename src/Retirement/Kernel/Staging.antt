-- ===== src/Retirement/Kernel/Staging.antt =====
-- What the first write of a fence comes to, and what it is to the next call: `inTransaction` of
-- `cloudflare-relay/src/relay-retirement-transaction-kernel.js`.
use bke_worker.Prelude.{◌∙◌, sym, subst, true, false, none, some, refl, arith, ◌≡◌}
use bke_worker.Text.{text}
use bke_worker.Js.Value.{is_text_where, get, is_undefined, Value}
use bke_worker.Retirement.Witness.{
  observe, read_queued, read_active, read_relay_retirement_witness, Stored,
}
use bke_worker.Retirement.Fence.{validate_retirement_target, validate_retired_fence_record}
use bke_worker.Js.Value.{is_positive_safe}
use bke_worker.Retirement.Kernel.Targets.{
  one_epoch, same_positive, same_text, target_of-IsTarget, same_target-fence, fence-created_at_ms,
  fence-retirement_id, fence-epoch, is_undefined-fence,
}
use bke_worker.Protocol.Patterns.{is_delivery_id}
use bke_worker.Retirement.Kernel.{
  fence_of, fence_refusal, canonical_of, Request, validate_request, stage_first, snapshot_request,
  in_transaction, wake_refusal, has_fence, staged, existing,
}

abbrev pub after_staging : Stored → Request → Stored
after_staging s req = record s { fence = fence_of req; epoch = get (fence_of req) (text "epoch") }

-- The transaction stages a fence only where neither the fence nor its epoch is stored and the
-- stored wakes agree with the request. The fence passes the validator, and the transaction writes
-- it and its epoch and nothing else.
pub in_transaction-staged :
    (s : Stored) (req : Request) (fence : Value)
    → (in_transaction s req).0 ≡ staged fence
    → (has_fence s ≡ false)
      × (wake_refusal s req ≡ none)
      × (validate_retired_fence_record fence ≡ true)
      × (fence ≡ fence_of req)
      × ((in_transaction s req).1 ≡ after_staging s req)
unfolding in_transaction stage_first
in_transaction-staged s req fence h = ground arith

wake_refusal-after :
    (s : Stored) (req : Request) → wake_refusal (after_staging s req) req ≡ wake_refusal s req
unfolding wake_refusal read_relay_retirement_witness read_active read_queued observe
wake_refusal-after s req = refl

has_fence-after :
    (s : Stored) (req : Request)
    → is_undefined (fence_of req) ≡ false
    → has_fence (after_staging s req) ≡ true
unfolding has_fence
has_fence-after s req h = ground arith

in_transaction-existing :
    (s : Stored) (req : Request)
    → has_fence s ≡ true
    → fence_refusal s req ≡ none
    → wake_refusal s req ≡ none
    → in_transaction s req ≡ (existing s.fence, s)
unfolding in_transaction
in_transaction-existing s req here fine agreed = ground arith

module _ (request : Value) (valid : validate_request (canonical_of request) ≡ true) where
  abbrev req : Request
  req = canonical_of request

  pub request_tests :
      (validate_retirement_target req.target ≡ true)
      × (is_text_where is_delivery_id req.retirement_id ≡ true)
      × (is_positive_safe req.created_at_ms ≡ true)
  unfolding validate_request
  request_tests = ground arith

  fence_refusal-after :
      (s : Stored)
      → validate_retired_fence_record (fence_of req) ≡ true
      → fence_refusal (after_staging s req) req ≡ none
  unfolding fence_refusal
  fence_refusal-after s ok =
      let (target, id, ms) = request_tests in
      let t = get request (text "target") in
      rw (
        ok,
        fence-epoch t req.retirement_id req.created_at_ms,
        fence-retirement_id t req.retirement_id req.created_at_ms,
        fence-created_at_ms t req.retirement_id req.created_at_ms,
        same_target-fence t req.retirement_id req.created_at_ms (target_of-IsTarget t target),
        same_text is_delivery_id _ id,
        same_positive _ ms,
        one_epoch,
        same_positive _ one_epoch,
      )

  canonical_again :
      (s : Stored) (fence : Value)
      → (in_transaction s req).0 ≡ staged fence
      → in_transaction (after_staging s req) req ≡ (existing fence, after_staging s req)
  canonical_again s written h =
      let (absent, agreed, ok, same_fence, after) = in_transaction-staged s req written h in
      let ok' = subst (λ v. validate_retired_fence_record v ≡ true) same_fence ok in
      rw same_fence (
        in_transaction-existing (after_staging s req) req
          (has_fence-after s req (is_undefined-fence _ req.retirement_id req.created_at_ms))
          (fence_refusal-after s ok') (wake_refusal-after s req ∙ agreed))

pub snapshot-canonical :
    (request : Value) (req : Request)
    → snapshot_request request ≡ some req
    → (validate_request (canonical_of request) ≡ true) × (canonical_of request ≡ req)
unfolding snapshot_request
snapshot-canonical request req h = ground arith

-- A transaction that staged a fence, run again with the request that it was given, reports that
-- fence and changes nothing.
pub in_transaction_again :
    (request : Value) (req : Request) (s : Stored) (fence : Value)
    → snapshot_request request ≡ some req
    → (in_transaction s req).0 ≡ staged fence
    → in_transaction (in_transaction s req).1 req ≡ (existing fence, (in_transaction s req).1)
in_transaction_again request req s fence taken h =
    let (valid, same_request) = snapshot-canonical request req taken in
    let (absent, agreed, ok, same_fence, after) = in_transaction-staged s req fence h in
    let h' : (in_transaction s (canonical_of request)).0 ≡ staged fence =
      subst (λ r. (in_transaction s r).0 ≡ staged fence) (sym same_request) h in
    rw after (
      subst (λ r. in_transaction (after_staging s r) r ≡ (existing fence, after_staging s r))
        same_request (canonical_again request valid s fence h'))
