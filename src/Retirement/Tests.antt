-- ===== src/Retirement/Tests.antt =====
-- The theorems about a fence at a worker with one wake that waits.
use bke_worker.Retirement.Fence.{inspect_retirement_operation, worker_retired}
use bke_worker.Retirement.Kernel.{stage_retirement_fence_candidate, Outcome, staged_shape}
use bke_worker.Prelude.{Option, every, some, refl, inr, ◌≡◌, ◌≢◌}
use bke_worker.Js.Value.{
  is_positive_safe, number_of, text_or_empty, fields_of, is_array, is_positive_integer, elements,
  is_num, is_text, is_text_where, get, same_value, is_undefined, Value, num, str, arr, obj, end,
  field, undefined, cons, nil,
}
use bke_worker.Js.Integer.{pos}
use bke_worker.Retirement.Kernel.{
  no_repeat, distinct_ids, observed_refusal, stage_first, wake_refusal, canonical_of,
  validate_request, fence_of, has_fence, in_transaction, snapshot_request, staged,
}
use bke_worker.Retirement.Witness.{
  is_recent, is_connection, describe_wake, is_in_context, observe, read_queued, read_active,
  read_relay_retirement_witness, Stored,
}
use bke_worker.Retirement.Kernel.Staging.{after_staging}
use bke_worker.Retirement.Kernel.First.{
  IsFree, fence_for, in_transaction-IsFree, in_transaction_keeps,
}
use bke_worker.Text.{has_text, text_eq, text}
use bke_worker.Protocol.Wake.{validate_wake, wake_value}
use bke_worker.Retirement.Fence.{
  spread, validate_retired_fence_record, target_of, validate_retirement_target, make_fence,
}
use bke_worker.Js.Keys.{texts_eq, sort, exact_keys, exact}
use bke_worker.Protocol.Patterns.{
  is_reason, is_delivery_id, is_sha, is_control_repository, is_valid_delivery_id,
  is_valid_worker_id,
}
use bke_worker.Retirement.Kernel.Readback.{stage-confirmed}
use bke_worker.Retirement.Kernel.Blocks.{staged-retired}
use bke_worker.Session.Fixtures.{worker, head, opened}

abbrev pub target : Value
target = obj (
    field (text "repo") (str (text "jan2xo/bke-worker")) (
      field (text "worker_id") (str worker)
        (field (text "pr_number") (num (pos 7)) (field (text "expected_head_sha") (str head) end))))

abbrev pub request : Value
request = obj (
    field (text "target") target (
      field (text "retirement_id") (str (text "r1")) (
        field (text "created_at_ms") (num (pos 1700000000000))
          (field (text "expected_delivery_ids") (arr (cons (str (text "d1")) nil)) end))))

abbrev pub stored : Stored
stored = record {
  worker_id = str worker;
  active_wake =
      obj
        (field (text "wake") (wake_value opened) (field (text "phase") (str (text "queued")) end));
  queued_wake = undefined;
  active_connection_id = undefined;
  recent_deliveries = undefined;
  fence = undefined;
  epoch = undefined;
}

abbrev fence : Value
fence = fence_of (canonical_of request)

pub request_taken : snapshot_request request ≡ some (canonical_of request)
unfolding snapshot_request validate_request validate_retirement_target target_of exact get text
    is_text_where is_positive_safe is_valid_worker_id is_valid_delivery_id is_control_repository
    is_sha is_delivery_id sort texts_eq no_repeat every elements is_array text_or_empty
request_taken = refl

pub stored_staged : (in_transaction stored (canonical_of request)).0 ≡ staged fence
unfolding in_transaction has_fence stage_first wake_refusal observed_refusal distinct_ids
    read_relay_retirement_witness read_active read_queued observe is_in_context describe_wake
    is_connection is_recent validate_wake validate_retired_fence_record validate_retirement_target
    target_of exact exact_keys get text text_eq is_text is_num is_text_where is_positive_safe
    is_positive_integer is_valid_worker_id is_valid_delivery_id is_control_repository is_sha
    is_reason is_delivery_id sort texts_eq every elements is_undefined same_value make_fence spread
    fields_of text_or_empty wake_value number_of
stored_staged = refl

in_transaction-IsFree_example :
    IsFree stored (canonical_of request) (text "d1")
    × (fence ≡ fence_for request)
    × ((in_transaction stored (canonical_of request)).1
        ≡ record stored { fence = fence_for request; epoch = num (pos 1) })
in_transaction-IsFree_example =
    in_transaction-IsFree request (canonical_of request) stored fence (text "d1") request_taken
      stored_staged

-- The epoch is stored and the fence is lost.
abbrev dated : Stored
dated = record stored { epoch = num (pos 1) }

dated_defined : dated.epoch ≢ undefined
dated_defined e = cc

in_transaction_keeps_example :
    ((in_transaction dated (canonical_of request)).1 ≡ dated)
    × ((in_transaction dated (canonical_of request)).0 ≢ staged fence)
in_transaction_keeps_example =
    in_transaction_keeps dated (canonical_of request) fence (inr dated_defined)

staged-retired_example :
    inspect_retirement_operation
      (in_transaction stored (canonical_of request)).1.fence
      (canonical_of request).target
      (str (text "dispatch"))
    ≡ worker_retired (text "dispatch")
unfolding has_text text_eq text
staged-retired_example =
    staged-retired request (canonical_of request) stored (text "dispatch") request_taken
      stored_staged refl

-- A runtime that commits and reads.
abbrev commit : (Stored → Outcome × Stored) → Stored → Option Outcome × Stored
commit f s = (some (f s).0, (f s).1)

abbrev read_two : Stored → Option (Value × Value)
read_two s = some (s.fence, s.epoch)

stage-confirmed_example :
    stage_retirement_fence_candidate commit read_two stored request
    ≡ (staged_shape (num (pos 1)), after_staging stored (canonical_of request))
stage-confirmed_example =
    stage-confirmed commit read_two (record { commits = λ f s. refl; reads = λ s. refl }) stored
      request (canonical_of request) fence request_taken stored_staged
