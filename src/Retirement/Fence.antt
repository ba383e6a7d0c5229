-- ===== src/Retirement/Fence.antt =====
-- The fence record and the two pure decisions on it: `relay-retirement-fence-policy.js` of
-- `cloudflare-relay/src`. An operation or a key that is missing reads as `undefined`.
use bke_worker.Prelude.{◌&&◌, ◌∷◌, Bool, not, List, [], if◌then◌else◌}
use bke_worker.Js.Value.{
  is_positive_safe, is_text, text_or_empty, is_undefined, is_num, same_value, is_text_where,
  fields_of, get, Value, Fields, num, str, obj, end, field,
}
use bke_worker.Text.{has_text, text, Text}
use bke_worker.Js.Keys.{exact}
use bke_worker.Protocol.Patterns.{is_sha, is_control_repository, is_delivery_id, is_valid_worker_id}
use bke_worker.Js.Integer.{pos}

abbrev pub fenced_operations : List Text
fenced_operations =
    text "connect"
    ∷ text "register"
    ∷ text "dispatch"
    ∷ text "recover"
    ∷ text "send"
    ∷ text "ack"
    ∷ text "promote"
    ∷ text "socket-close"
    ∷ text "socket-error"
    ∷ []

abbrev pub target_keys : List Text
target_keys = text "worker_id" ∷ text "repo" ∷ text "pr_number" ∷ text "expected_head_sha" ∷ []

abbrev pub record_keys : List Text
record_keys =
    text "schema_version"
    ∷ text "status"
    ∷ text "worker_id"
    ∷ text "repo"
    ∷ text "pr_number"
    ∷ text "expected_head_sha"
    ∷ text "retirement_id"
    ∷ text "epoch"
    ∷ text "created_at_ms"
    ∷ []

abbrev pub proposal_keys : List Text
proposal_keys =
    text "target" ∷ text "persisted_fence" ∷ text "retirement_id" ∷ text "created_at_ms" ∷ []

unfoldable pub validate_retirement_target : Value → Bool
validate_retirement_target target =
    exact target target_keys
    && is_valid_worker_id (get target (text "worker_id"))
    && is_text_where is_control_repository (get target (text "repo"))
    && is_positive_safe (get target (text "pr_number"))
    && is_text_where is_sha (get target (text "expected_head_sha"))

-- The object of the four target fields of a value.
unfoldable pub target_of : Value → Value
target_of v = obj (
    field (text "worker_id") (get v (text "worker_id")) (
      field (text "repo") (get v (text "repo")) (
        field (text "pr_number") (get v (text "pr_number"))
          (field (text "expected_head_sha") (get v (text "expected_head_sha")) end))))

unfoldable pub validate_retired_fence_record : Value → Bool
validate_retired_fence_record v =
    exact v record_keys
    && is_num (get v (text "schema_version")) 1
    && is_text (get v (text "status")) (text "retired")
    && validate_retirement_target (target_of v)
    && is_text_where is_delivery_id (get v (text "retirement_id"))
    && is_positive_safe (get v (text "epoch"))
    && is_positive_safe (get v (text "created_at_ms"))

unfoldable pub same_target : Value → Value → Bool
same_target a b =
    same_value (get a (text "worker_id")) (get b (text "worker_id"))
    && same_value (get a (text "repo")) (get b (text "repo"))
    && same_value (get a (text "pr_number")) (get b (text "pr_number"))
    && same_value (get a (text "expected_head_sha")) (get b (text "expected_head_sha"))

pub data Decision : Type 0 where
  target_invalid operation_unknown fence_absent_unverified : Decision
  fence_malformed fence_target_mismatch : Decision
  worker_retired : (operation : Text) → Decision

unfoldable pub inspect_retirement_operation : (persisted_fence target operation : Value) → Decision
inspect_retirement_operation persisted_fence target operation =
    if not (validate_retirement_target target)
    then target_invalid
    else if not (is_text_where (has_text fenced_operations) operation)
    then operation_unknown
    else if is_undefined persisted_fence
    then fence_absent_unverified
    else if not (validate_retired_fence_record persisted_fence)
    then fence_malformed
    else if not (same_target persisted_fence target)
    then fence_target_mismatch
    else worker_retired (text_or_empty operation)

pub data Proposal : Type 0 where
  proposal_invalid existing_fence_malformed existing_fence_target_mismatch : Proposal
  already_fenced : Proposal
  proposal_only : (candidate : Value) → Proposal

-- `{...fields, …rest}`, for fields that `rest` does not name
unfoldable pub spread : Fields → Fields → Fields
spread end rest = rest
spread (field k v fs) rest = field k v (spread fs rest)

-- `{schema_version: 1, status: "retired", ...target, retirement_id, epoch: 1, created_at_ms}`
unfoldable pub make_fence : (target retirement_id created_at_ms : Value) → Value
make_fence target retirement_id created_at_ms = obj (
    field (text "schema_version") (num (pos 1)) (
      field (text "status") (str (text "retired")) (
        spread (fields_of target) (
          field (text "retirement_id") retirement_id (
            field (text "epoch") (num (pos 1)) (field (text "created_at_ms") created_at_ms end))))))

unfoldable pub propose_retirement_tombstone : Value → Proposal
propose_retirement_tombstone request =
    let target = get request (text "target") in
    let persisted = get request (text "persisted_fence") in
    let retirement_id = get request (text "retirement_id") in
    let created_at_ms = get request (text "created_at_ms") in
    if not (
      exact request proposal_keys
      && validate_retirement_target target
      && is_text_where is_delivery_id retirement_id
      && is_positive_safe created_at_ms)
    then proposal_invalid
    else if not (is_undefined persisted)
    then (if not (validate_retired_fence_record persisted)
        then existing_fence_malformed
        else if not (same_target persisted target)
        then existing_fence_target_mismatch
        else already_fenced)
    else proposal_only (make_fence target retirement_id created_at_ms)
