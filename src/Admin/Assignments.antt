-- ===== src/Admin/Assignments.antt =====
-- The snapshot of assignments that the broker hands out: `fulfillCommandCenterAdminAssignments` of
-- `cloudflare-relay/src/admin-broker.js`. `lower` is `String.prototype.toLowerCase`, and `to_text`
-- is `String`, by which a regular expression reads a value that is no string.
pub mod Projected
pub mod Snapshots
use bke_worker.Text.{has_text, includes, split_at, text, starts_with, text_eq, Text}
use bke_worker.Js.Value.{
  elements, is_array, is_text, is_positive_safe, is_text_where, nil, str, cons, number_of, arr, num,
  is_object, get, text_or_empty, Value,
}
use bke_worker.Admin.Broker.{
  assignment_response_invalid, assignment_purpose_invalid, is_purpose, assignment_locked,
  is_enabled, is_installation, joined_keys, BrokerError,
}
use bke_worker.Protocol.Patterns.{is_worker_id, is_run, in_range, is_repo, is_sha}
use bke_worker.Protocol.Assignments.{is_truthy}
use bke_worker.Text.Decimal.{decimal}
use bke_worker.Js.Integer.{pos}
use bke_worker.Prelude.{
  inr, length, leb, inl, drop, not, [], if◌then◌else◌, ◌++◌, ◌||◌, ◌&&◌, ◌⊎◌, false, ◌∷◌, Bool,
  Option, List, ℕ, none, some,
}

-- An entry of `safe`. The head is the value that was read.
pub record SafeAssignment : Type 0 where
  pub repository : Text
  pub repository_id : ℕ
  pub number : ℕ
  pub head_sha : Value
  pub worker : Text

-- The fields of the answer that are not constants.
pub record Snapshot : Type 0 where
  pub installation_id : Text
  pub total_visible_repositories : ℕ
  pub enumerated_open_pull_requests : ℕ
  pub worker_assignments : List SafeAssignment

-- `Number.isSafeInteger(v) && v >= 0 && v <= max`, for a safe `max`
unfoldable pub is_count : ℕ → Value → Bool
is_count max (num (pos n)) = leb n max
is_count max v = false

-- /^[1-9][0-9]{0,19}$/
unfoldable pub is_installation_id : Text → Bool
is_installation_id [] = false
is_installation_id (c ∷ t) = in_range b'1' b'9' c && is_run (in_range b'0' b'9') 0 19 t

-- WORKER_LABEL = /^bke-worker:[a-z0-9][a-z0-9-]{0,62}$/
unfoldable pub is_worker_label : Text → Bool
is_worker_label t = starts_with t (text "bke-worker:") && is_worker_id (drop 11 t)

-- `p === "." || p === ".." || p.includes("..")`
unfoldable pub is_dotted : Text → Bool
is_dotted p = text_eq p (text ".") || text_eq p (text "..") || includes p (text "..")

-- REPO_NAME, with neither part made of dots. The name has one slash.
unfoldable pub is_repo_name : Text → Bool
is_repo_name t = is_repo t && elim (split_at b'/' t) [
  | none ↦ false
  | some (owner, name) ↦ not (is_dotted owner) && not (is_dotted name)
]

-- `labels[0]` of an array with one element that is a string
unfoldable pub only_label : Value → Option Text
only_label (arr (cons (str t) nil)) = some t
only_label v = none

unfoldable pub label_of : Value → Text
label_of item = elim (only_label (get item (text "labels"))) [ none ↦ [] | some t ↦ t ]

unfoldable pub has_worker_label : Value → Bool
has_worker_label item = elim (only_label (get item (text "labels"))) [
  | none ↦ false
  | some t ↦ is_worker_label t
]

-- The tests on the answer, but those on its entries.
unfoldable pub is_snapshot : Value → Bool
is_snapshot result =
    let entries = get result (text "worker_assignments") in
    let enumerated = get result (text "enumerated_open_pull_requests") in
    is_object result
    && text_eq (joined_keys result) (
        text
          "authority,consistency,enumerated_open_pull_requests,installation_id,principal,repository_scope,total_visible_repositories,worker_assignments")
    && is_installation result
    && is_text (get result (text "consistency")) (text "NON_ATOMIC_ENUMERATION")
    && is_text_where is_installation_id (get result (text "installation_id"))
    && is_count 100 (get result (text "total_visible_repositories"))
    && is_count 2000 enumerated
    && is_array entries
    && leb (length (elements entries)) 500
    && leb (length (elements entries)) (number_of enumerated)

-- The entry that is pushed.
unfoldable pub safe_assignment : Value → SafeAssignment
safe_assignment item = record {
  repository = text_or_empty (get item (text "repository"));
  repository_id = number_of (get item (text "repository_id"));
  number = number_of (get item (text "number"));
  head_sha = get item (text "head_sha");
  worker = label_of item;
}

-- `COMMIT_SHA.test(item.head_sha || "")`
unfoldable pub is_commit : (Value → Text) → Value → Bool
is_commit to_text v = is_sha (if is_truthy v then to_text v else [])

unfoldable pub is_safe_item : (Value → Text) → Value → Bool
is_safe_item to_text item =
    is_object item
    && text_eq (joined_keys item) (text "head_sha,labels,number,repository,repository_id,state")
    && is_text_where is_repo_name (get item (text "repository"))
    && is_positive_safe (get item (text "repository_id"))
    && is_positive_safe (get item (text "number"))
    && is_text (get item (text "state")) (text "open")
    && is_commit to_text (get item (text "head_sha"))
    && has_worker_label item

-- `item.repository.toLowerCase() + "#" + item.number`
unfoldable pub pull_request_key : (Text → Text) → Value → Text
pull_request_key lower item =
    lower (text_or_empty (get item (text "repository")))
    ++ (b'#' ∷ decimal (number_of (get item (text "number"))))

module _ (lower : Text → Text) (to_text : Value → Text) where
  -- The loop, with the sets `prs` and `claims`; `none` is the error that it throws.
  unfoldable pub project : (prs claims : List Text) → List Value → Option (List SafeAssignment)
  project prs claims [] = some []
  project prs claims (item ∷ rest) =
      let later = project (pull_request_key lower item ∷ prs) (label_of item ∷ claims) rest in
      if not (is_safe_item to_text item)
      then none
      else if has_text prs (pull_request_key lower item) || has_text claims (label_of item)
      then none
      else elim later [ none ↦ none | some safe ↦ some (safe_assignment item ∷ safe) ]

  unfoldable pub fulfill_admin_assignments : (env request result : Value) → BrokerError ⊎ Snapshot
  fulfill_admin_assignments env request result =
      if not (
        is_enabled env (text "BKE_ADMIN_BROKER_ENABLED")
        && is_enabled env (text "BKE_ADMIN_PR_INVENTORY_ENABLED"))
      then inl assignment_locked
      else if not (is_purpose request (text "admin_worker_assignment_inventory"))
      then inl assignment_purpose_invalid
      else if not (is_snapshot result)
      then inl assignment_response_invalid
      else elim (project [] [] (elements (get result (text "worker_assignments")))) [
        | none ↦ inl assignment_response_invalid
        | some safe ↦ inr (record {
          installation_id = text_or_empty (get result (text "installation_id"));
          total_visible_repositories = number_of (get result (text "total_visible_repositories"));
          enumerated_open_pull_requests =
              number_of (get result (text "enumerated_open_pull_requests"));
          worker_assignments = safe;
        })
      ]
