-- ===== src/Protocol/Assignments.antt =====
-- The assignments of a worker in GitHub's answer: `normalizeRecoveryAssignments` of
-- `cloudflare-relay/src/protocol.js`. Three functions of the language are arguments: `lower` is
-- `String.prototype.toLowerCase`, `to_text` is `String`, and `to_integer` is `Number`, `none` where
-- that is no integer.
pub mod Named
pub mod Kept
mod Tests
use bke_worker.Prelude.{
  ◌++◌, ◌||◌, ◌&&◌, not, Bool, Option, List, ℕ, true, false, [], ◌∷◌, none, some, if◌then◌else◌,
}
use bke_worker.Js.Value.{
  elements, is_text, is_array, get, text_or_empty, Value, undefined, null, bool, num, str,
}
use bke_worker.Text.{text_eq, text, Text}
use bke_worker.Protocol.Recovery.{Assignment}
use bke_worker.Protocol.Patterns.{is_sha, is_worker_id}
use bke_worker.Protocol.Routing.Labels.{assignment_label_prefix}
use bke_worker.Js.Integer.{to_ℕ, equals_ℕ, same_integer, is_positive, ℤ, pos, negsuc}

-- `Boolean(value)`; no fraction is zero
unfoldable pub is_truthy : Value → Bool
is_truthy undefined = false
is_truthy null = false
is_truthy (bool b) = b
is_truthy (num z) = not (same_integer z (pos 0))
is_truthy (str s) = not (text_eq s [])
is_truthy v = true

pub data Failure : Type 0 where
  detail_missing state_invalid head_invalid : (number : ℕ) → Failure

pub data Answer : Type 0 where
  payload_invalid : Answer
  failed : Failure → Answer
  assigned : List Assignment → Answer

-- What one candidate comes to: an assignment, nothing for a closed pull request, or an error.
pub data Detail : Type 0 where
  closed : Detail
  open_detail : Assignment → Detail
  refused : Failure → Detail

module _ (lower : Text → Text) (to_text : Value → Text) (to_integer : Value → Option ℤ) where
  -- `Number.isInteger(Number(v)) && Number(v) > 0`
  unfoldable pub positive_number : Value → Option ℕ
  positive_number v = elim (to_integer v) [
    | none ↦ none
    | some z ↦ if is_positive z then some (to_ℕ z) else none
  ]

  -- `String(label?.name || "").toLowerCase() === assignedLabel` for some label
  unfoldable pub has_label : Text → List Value → Bool
  has_label assigned_label [] = false
  has_label assigned_label (label ∷ rest) =
      let name = get label (text "name") in
      text_eq (lower (if is_truthy name then to_text name else [])) assigned_label
      || has_label assigned_label rest

  unfoldable pub is_candidate : Text → Value → Bool
  is_candidate assigned_label item =
      is_truthy item
      && is_truthy (get item (text "pull_request"))
      && is_text (get item (text "state")) (text "open")
      && is_array (get item (text "labels"))
      && has_label assigned_label (elements (get item (text "labels")))

  -- The numbers of the issues that name the worker.
  unfoldable pub candidates : Text → List Value → List ℕ
  candidates assigned_label [] = []
  candidates assigned_label (item ∷ rest) = elim (positive_number (get item (text "number"))) [
    | none ↦ candidates assigned_label rest
    | some n ↦
        if is_candidate assigned_label item
        then n ∷ candidates assigned_label rest
        else candidates assigned_label rest
  ]

  unfoldable pub has_number : ℕ → Value → Bool
  has_number n item =
      is_truthy item
      && elim (to_integer (get item (text "number"))) [ none ↦ false | some z ↦ equals_ℕ z n ]

  -- `pullByNumber.get(number)`: the last pull request with the number
  unfoldable pub pull_by_number : ℕ → List Value → Option Value
  pull_by_number n [] = none
  pull_by_number n (item ∷ rest) = elim (pull_by_number n rest) [
    | none ↦ if has_number n item then some item else none
    | some found ↦ some found
  ]

-- An entry of the map's result, from the pull request that was found.
unfoldable pub read_detail : Text → ℕ → Value → Detail
read_detail worker_id n found =
    let head_ref = text_or_empty (get (get found (text "head")) (text "ref")) in
    let head_sha = text_or_empty (get (get found (text "head")) (text "sha")) in
    if is_text (get found (text "state")) (text "closed")
    then closed
    else if not (is_text (get found (text "state")) (text "open"))
    then refused (state_invalid n)
    else if text_eq head_ref [] || not (is_sha head_sha)
    then refused (head_invalid n)
    else open_detail
        (record { worker_id = worker_id; number = n; head_ref = head_ref; head_sha = head_sha })

unfoldable pub detail : Text → ℕ → Option Value → Detail
detail worker_id n none = refused (detail_missing n)
detail worker_id n (some found) = read_detail worker_id n found

-- `assignments` in front of those that the rest gives
unfoldable pub put_first : Assignment → Answer → Answer
put_first a (assigned rest) = assigned (a ∷ rest)
put_first a failure = failure

-- `issueCandidates.map(…).filter(Boolean)`, which stops at the first error
unfoldable pub collect : Text → (ℕ → Option Value) → List ℕ → Answer
collect worker_id pull_of [] = assigned []
collect worker_id pull_of (n ∷ rest) =
    let others = collect worker_id pull_of rest in
    elim (detail worker_id n (pull_of n)) [
      | closed ↦ others
      | open_detail a ↦ put_first a others
      | refused failure ↦ failed failure
    ]

unfoldable pub normalize_recovery_assignments :
    (Text → Text)
    → (Value → Text)
    → (Value → Option ℤ)
    → (issue_items pull_requests : Value) → (worker_id : Text) → Answer
normalize_recovery_assignments lower to_text to_integer issue_items pull_requests worker_id =
    if not (is_array issue_items && is_array pull_requests && is_worker_id worker_id)
    then payload_invalid
    else collect worker_id (λ n. pull_by_number lower to_text to_integer n (elements pull_requests))
        (candidates lower to_text to_integer (lower (assignment_label_prefix ++ worker_id))
          (elements issue_items))
