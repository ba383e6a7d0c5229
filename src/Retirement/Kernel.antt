-- ===== src/Retirement/Kernel.antt =====
-- The transaction that stages a fence: `relay-retirement-transaction-kernel.js` of
-- `cloudflare-relay/src`. That a handle has the functions that are called is taken for granted.
pub mod Targets
pub mod Staging
pub mod Seen
pub mod First
pub mod Readback
pub mod Blocks
use bke_worker.Prelude.{
  every, length, leb, ◌||◌, ◌&&◌, ◌∷◌, map, not, is_none, Bool, List, Option, true, [], none, some,
  if◌then◌else◌,
}
use bke_worker.Js.Value.{
  is_array, elements, text_or_empty, is_text_where, is_undefined, same_value, get, Value,
}
use bke_worker.Retirement.Witness.{
  observed_only, read_relay_retirement_witness, Summary, Observed, Stored,
}
use bke_worker.Retirement.Fence.{
  target_keys, target_of, same_target, validate_retired_fence_record, validate_retirement_target,
  make_fence,
}
use bke_worker.Js.Value.{is_positive_safe}
use bke_worker.Text.{text_eq, text, Text}
use bke_worker.Js.Keys.{exact, sort, texts_eq}
use bke_worker.Protocol.Patterns.{is_valid_delivery_id, is_delivery_id}

abbrev pub request_keys : List Text
request_keys =
    text "target" ∷ text "retirement_id" ∷ text "created_at_ms" ∷ text "expected_delivery_ids" ∷ []

-- The copy of a request that `snapshotRequest` makes.
pub record Request : Type 0 where
  pub target : Value
  pub retirement_id : Value
  pub created_at_ms : Value
  pub expected_delivery_ids : List Value

abbrev pub expected_ids : Request → List Text
expected_ids req = map text_or_empty req.expected_delivery_ids

-- `i === 0 || sorted[i - 1] !== id`
unfoldable pub no_repeat : List Text → Bool
no_repeat [] = true
no_repeat (x ∷ []) = true
no_repeat (x ∷ y ∷ rest) = not (text_eq x y) && no_repeat (y ∷ rest)

-- The copy has the right keys by construction.
unfoldable pub validate_request : Request → Bool
validate_request req =
    validate_retirement_target req.target
    && is_text_where is_delivery_id req.retirement_id
    && is_positive_safe req.created_at_ms
    && leb 1 (length req.expected_delivery_ids)
    && leb (length req.expected_delivery_ids) 2
    && every is_valid_delivery_id req.expected_delivery_ids
    && texts_eq (sort (expected_ids req)) (expected_ids req)
    && no_repeat (expected_ids req)

-- `canonical`, where the request has the right shape
abbrev pub canonical_of : Value → Request
canonical_of request = record {
  target = target_of (get request (text "target"));
  retirement_id = get request (text "retirement_id");
  created_at_ms = get request (text "created_at_ms");
  expected_delivery_ids = elements (get request (text "expected_delivery_ids"));
}

unfoldable pub snapshot_request : Value → Option Request
snapshot_request request =
    if exact request request_keys
      && exact (get request (text "target")) target_keys
      && is_array (get request (text "expected_delivery_ids"))
      && validate_request (canonical_of request)
    then some (canonical_of request)
    else none

pub data Refusal : Type 0 where
  fence_epoch_inconsistent existing_fence_target_conflict : Refusal
  existing_fence_decision_conflict : Refusal
  persisted_wake_or_identity_untrusted no_persisted_wake_to_reconcile : Refusal
  connection_id_present_socket_unverified delivery_set_mismatch : Refusal
  candidate_record_invalid : Refusal

pub data Outcome : Type 0 where
  blocked : Refusal → Outcome
  existing : (fence : Value) → Outcome
  staged : (fence : Value) → Outcome

abbrev pub fence_of : Request → Value
fence_of req = make_fence req.target req.retirement_id req.created_at_ms

unfoldable pub has_fence : Stored → Bool
has_fence s = not (is_undefined s.fence) || not (is_undefined s.epoch)

-- Why a fence that is there does not agree with the request.
unfoldable pub fence_refusal : Stored → Request → Option Refusal
fence_refusal s req =
    if not (
      validate_retired_fence_record s.fence
      && is_positive_safe s.epoch
      && same_value (get s.fence (text "epoch")) s.epoch)
    then some fence_epoch_inconsistent
    else if not (same_target s.fence req.target)
    then some existing_fence_target_conflict
    else if not (
        same_value (get s.fence (text "retirement_id")) req.retirement_id
        && same_value (get s.fence (text "created_at_ms")) req.created_at_ms)
    then some existing_fence_decision_conflict
    else none

-- `[active?.delivery_id, queued?.delivery_id].filter(x => x !== undefined)` without repeats
unfoldable pub distinct_ids : (active queued : Option Summary) → List Text
distinct_ids none none = []
distinct_ids (some a) none = a.delivery_id ∷ []
distinct_ids none (some q) = q.delivery_id ∷ []
distinct_ids (some a) (some q) =
    if text_eq a.delivery_id q.delivery_id
    then a.delivery_id ∷ []
    else a.delivery_id ∷ q.delivery_id ∷ []

unfoldable pub observed_refusal : Observed → Request → Option Refusal
observed_refusal seen req =
    if is_none seen.active && is_none seen.queued
    then some no_persisted_wake_to_reconcile
    else if seen.active_connection_id_present
    then some connection_id_present_socket_unverified
    else if not (texts_eq (sort (distinct_ids seen.active seen.queued)) (expected_ids req))
    then some delivery_set_mismatch
    else none

-- Why the stored wakes do not agree with the request.
unfoldable pub wake_refusal : Stored → Request → Option Refusal
wake_refusal s req = elim (read_relay_retirement_witness (some s) req.target) [
  | observed_only seen ↦ observed_refusal seen req
  | _ ↦ some persisted_wake_or_identity_untrusted
]

-- The first write.
unfoldable pub stage_first : Stored → Request → Outcome × Stored
stage_first s req =
    let fence = fence_of req in
    if validate_retired_fence_record fence
    then (staged fence, record s { fence = fence; epoch = get fence (text "epoch") })
    else (blocked candidate_record_invalid, s)

-- The callback of the transaction, with the storage after it.
unfoldable pub in_transaction : Stored → Request → Outcome × Stored
in_transaction s req = elim (if has_fence s then fence_refusal s req else none) [
  | some why ↦ (blocked why, s)
  | none ↦ elim (wake_refusal s req) [
    | some why ↦ (blocked why, s)
    | none ↦ if has_fence s then (existing s.fence, s) else stage_first s req
  ]
]

unfoldable pub same_record : Value → Value → Bool
same_record a b =
    same_value (get a (text "schema_version")) (get b (text "schema_version"))
    && same_value (get a (text "status")) (get b (text "status"))
    && same_target a b
    && same_value (get a (text "retirement_id")) (get b (text "retirement_id"))
    && same_value (get a (text "epoch")) (get b (text "epoch"))
    && same_value (get a (text "created_at_ms")) (get b (text "created_at_ms"))

pub data StageResult : Type 0 where
  request_invalid transaction_outcome_uncertain transaction_result_invalid : StageResult
  transaction_blocked : Refusal → StageResult
  readback_uncertain readback_mismatch : StageResult
  staged_shape existing_shape : (observed_epoch : Value) → StageResult

-- The readback of the fence and its epoch, `none` if a read fails.
unfoldable pub confirm : Value → (Value → StageResult) → Option (Value × Value) → StageResult
confirm fence staging none = readback_uncertain
confirm fence staging (some (persisted, epoch)) =
    if validate_retired_fence_record persisted
      && is_positive_safe epoch
      && same_value epoch (get persisted (text "epoch"))
      && same_record persisted fence
    then staging epoch
    else readback_mismatch

-- The test of the transaction's record, and the readback.
unfoldable pub check_back : Value → (Value → StageResult) → Option (Value × Value) → StageResult
check_back fence staging back =
    if validate_retired_fence_record fence
    then confirm fence staging back
    else transaction_result_invalid

-- The transaction and the readback are the runtime's: what the transaction returns, `none` if it
-- throws, with the storage after it, and what is read from there.
unfoldable pub stage_retirement_fence_candidate :
    ((Stored → Outcome × Stored) → Stored → Option Outcome × Stored)
    → (Stored → Option (Value × Value))
    → Stored
    → Value
    → StageResult × Stored
stage_retirement_fence_candidate transaction read_back s request = elim (snapshot_request request) [
  | none ↦ (request_invalid, s)
  | some req ↦
      let (outcome, s') = transaction (λ t. in_transaction t req) s in
      elim outcome [
        | none ↦ (transaction_outcome_uncertain, s')
        | some (blocked why) ↦ (transaction_blocked why, s')
        | some (existing fence) ↦ (check_back fence existing_shape (read_back s'), s')
        | some (staged fence) ↦ (check_back fence staged_shape (read_back s'), s')
      ]
]
