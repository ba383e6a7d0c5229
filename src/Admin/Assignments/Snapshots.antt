-- ===== src/Admin/Assignments/Snapshots.antt =====
-- What a snapshot of the broker promises: `cloudflare-relay/src/admin-broker.js`.
use mathlib.Core.List.{map-map}
use bke_worker.Admin.Assignments.{
  pull_request_key, project, only_label, fulfill_admin_assignments, is_snapshot, is_count, label_of,
  is_repo_name, has_worker_label, safe_assignment, is_worker_label, Snapshot, SafeAssignment,
  is_safe_item,
}
use bke_worker.Js.Value.{num, elements, number_of, is_positive_safe, text_or_empty, get, Value}
use bke_worker.Text.{text, Text}
use bke_worker.Text.Distinct.{IsDistinct}
use bke_worker.Text.Decimal.{decimal}
use bke_worker.Js.Reads.{is_text_where→holds}
use bke_worker.Admin.Assignments.Projected.{IsSafe, project_iff}
use bke_worker.Js.Integer.{negsuc, pos}
use bke_worker.Prelude.{
  ◌∙◌, sym, subst, ℕ, inl, inr, Option-cases, arith, suc, ◌≤◌, ◌<◌, ap, All, map, length, ◌++◌, ◌≡◌,
  refl, true, some, List, [], ◌∷◌,
}

-- The pull request of an entry, as the broker compares it.
abbrev pub safe_key : (Text → Text) → SafeAssignment → Text
safe_key lower a = lower a.repository ++ (b'#' ∷ decimal a.number)

pub record IsAssignable (a : SafeAssignment) : Type 0 where
  pub names_worker : is_worker_label a.worker ≡ true
  pub names_repository : is_repo_name a.repository ≡ true
  pub numbered : 0 < a.number

pub record IsOwnership (lower : Text → Text) (s : Snapshot) : Type 0 where
  pub one_each : IsDistinct (map (λ a. SafeAssignment.worker a) s.worker_assignments)
  pub owned_once : IsDistinct (map (safe_key lower) s.worker_assignments)
  pub all_assignable : All IsAssignable s.worker_assignments
  pub few : length s.worker_assignments ≤ 500
  pub within : length s.worker_assignments ≤ s.enumerated_open_pull_requests
  pub bounded : s.enumerated_open_pull_requests ≤ 2000

label_of-IsWorker : (v : Value) → has_worker_label v ≡ true → is_worker_label (label_of v) ≡ true
unfolding has_worker_label label_of
label_of-IsWorker v h = elim (Option-cases (only_label (get v (text "labels")))) [
  | inl missing ↦ ground arith
  | inr (t, there) ↦ ground arith
]

is_positive_safe→positive : (v : Value) → is_positive_safe v ≡ true → 0 < number_of v
unfolding is_positive_safe number_of
is_positive_safe→positive (num (pos n)) h = ground arith
is_positive_safe→positive (num (negsuc n)) h = cc
is_positive_safe→positive v h = cc

is_count→bounded : (max : ℕ) (v : Value) → is_count max v ≡ true → number_of v ≤ max
unfolding is_count number_of
is_count→bounded max (num (pos n)) h = ground arith
is_count→bounded max (num (negsuc n)) h = cc
is_count→bounded max v h = cc

safe_item-IsAssignable :
    (to_text : Value → Text) (v : Value)
    → is_safe_item to_text v ≡ true
    → IsAssignable (safe_assignment v)
unfolding is_safe_item safe_assignment has_worker_label label_of
safe_item-IsAssignable to_text v h = record {
  names_worker = label_of-IsWorker v (ground arith);
  names_repository = is_text_where→holds is_repo_name (get v (text "repository")) (ground arith);
  numbered = is_positive_safe→positive (get v (text "number")) (ground arith);
}

All-IsAssignable :
    (to_text : Value → Text) (vs : List Value)
    → All (λ v. is_safe_item to_text v ≡ true) vs
    → All IsAssignable (map safe_assignment vs)
All-IsAssignable to_text [] h = tt
All-IsAssignable to_text (v ∷ vs) h =
    (safe_item-IsAssignable to_text v h.0, All-IsAssignable to_text vs h.1)

length-map_safe : (vs : List Value) → length (map safe_assignment vs) ≡ length vs
length-map_safe [] = refl
length-map_safe (v ∷ vs) = ap suc (length-map_safe vs)

-- The fields of the snapshot of an accepted answer.
snapshot_of : Value → List SafeAssignment → Snapshot
snapshot_of result safe = record {
  installation_id = text_or_empty (get result (text "installation_id"));
  total_visible_repositories = number_of (get result (text "total_visible_repositories"));
  enumerated_open_pull_requests = number_of (get result (text "enumerated_open_pull_requests"));
  worker_assignments = safe;
}

module _ (lower : Text → Text) (to_text : Value → Text) (env request result : Value) where
  fulfilled :
      (s : Snapshot)
      → fulfill_admin_assignments lower to_text env request result ≡ inr s
      → (is_snapshot result ≡ true)
        × ((safe : List SafeAssignment) × (project lower to_text [] []
                (elements (get result (text "worker_assignments")))
              ≡ some safe)
            × (s ≡ snapshot_of result safe))
  unfolding fulfill_admin_assignments snapshot_of
  fulfilled s h =
      elim (Option-cases
        (project lower to_text [] [] (elements (get result (text "worker_assignments"))))) [
          | inl stops ↦ ground arith
          | inr (safe, goes) ↦ (ground arith, (safe, goes, ground arith))
        ]

  projected-IsOwnership :
      is_snapshot result ≡ true
      → All (IsSafe lower to_text) (elements (get result (text "worker_assignments")))
      → IsDistinct
          (map (pull_request_key lower) (elements (get result (text "worker_assignments"))))
      → IsDistinct (map label_of (elements (get result (text "worker_assignments"))))
      → IsOwnership lower (
          snapshot_of result
            (map safe_assignment (elements (get result (text "worker_assignments")))))
  unfolding snapshot_of is_snapshot safe_assignment pull_request_key
  projected-IsOwnership checked ok keys labels =
      let vs = elements (get result (text "worker_assignments")) in
      let counted = get result (text "enumerated_open_pull_requests") in
      record {
        one_each = rw (map-map (λ (a : SafeAssignment). a.worker) safe_assignment vs) labels;
        owned_once = rw (map-map (safe_key lower) safe_assignment vs) keys;
        all_assignable = All-IsAssignable to_text vs ok;
        few = rw (length-map_safe vs) (ground arith);
        within = rw (length-map_safe vs) (ground arith);
        bounded = is_count→bounded 2000 counted (ground arith);
      }

  -- A snapshot that the broker hands out is an ownership: no worker has two entries, and no pull
  -- request, the repository's name taken in lower case; every entry names a valid worker and a
  -- repository, and has a positive number; and there are at most 500 entries, no more than the open
  -- pull requests that were counted, which are at most 2000.
  pub fulfill-IsOwnership :
      (s : Snapshot)
      → fulfill_admin_assignments lower to_text env request result ≡ inr s
      → IsOwnership lower s
  unfolding is_snapshot snapshot_of
  fulfill-IsOwnership s h =
      let (checked, r) = fulfilled s h in
      let (safe, goes, built) = r in
      let vs = elements (get result (text "worker_assignments")) in
      let (ok, keys, labels, same) = (project_iff lower to_text vs safe).0 goes in
      subst (IsOwnership lower) (ap (snapshot_of result) (sym same) ∙ sym built)
        (projected-IsOwnership checked ok keys labels)
