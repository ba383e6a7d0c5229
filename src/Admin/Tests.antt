-- ===== src/Admin/Tests.antt =====
-- The theorems about the broker's snapshot at two pull requests.
use bke_worker.Prelude.{every, inr, inl, All, ◌↔◌, map, ℕ, ◌≡◌, refl, some, [], ◌∷◌}
use bke_worker.Admin.Assignments.{
  is_worker_label, only_label, has_worker_label, label_of, is_commit, pull_request_key, is_dotted,
  is_repo_name, is_safe_item, is_installation_id, is_count, safe_assignment, is_snapshot, project,
  fulfill_admin_assignments, Snapshot,
}
use bke_worker.Admin.Assignments.Snapshots.{fulfill-IsOwnership, IsOwnership}
use bke_worker.Js.Value.{
  get_field, is_positive_safe, number_of, elements, is_array, is_text_where, fields_of, is_object,
  get, is_text, arr, end, num, str, field, nil, cons, text_or_empty, obj, Items, Value,
}
use bke_worker.Text.{text_leb, starts_with, split_at, has_text, includes, text_eq, text, Text}
use bke_worker.Admin.Broker.{
  assignment_response_invalid, join_texts, joined_keys, is_installation, is_purpose,
}
use bke_worker.Js.Integer.{pos}
use bke_worker.Admin.Assignments.Projected.{project_iff, IsSafe}
use bke_worker.Text.Distinct.{IsDistinct}
use bke_worker.Js.Keys.{insert_sorted, sort}
use bke_worker.Protocol.Patterns.{
  is_worker_unit, is_name_unit, is_lower_or_digit, is_hex_unit, is_worker_id, is_sha, is_repo,
  is_run,
}
use bke_worker.Protocol.Assignments.{is_truthy}
use bke_worker.Text.Decimal.{digits_from, decimal}
use bke_worker.Protocol.Routing.Fixtures.{head, lower_ascii}

abbrev entry : Text → ℕ → Text → Value
entry repository number label = obj (
    field (text "repository") (str repository) (
      field (text "repository_id") (num (pos 5)) (
        field (text "number") (num (pos number)) (
          field (text "state") (str (text "open")) (
            field (text "head_sha") (str head)
              (field (text "labels") (arr (cons (str label) nil)) end))))))

abbrev entries : Value → Value → Items
entries a b = cons a (cons b nil)

abbrev answer : Items → Value
answer listed = obj (
    field (text "principal") (str (text "github_app_installation")) (
      field (text "authority") (str (text "EXISTING_GITHUB_APP_INSTALLATION")) (
        field (text "repository_scope") (str (text "INSTALLATION_APPROVED_ONLY")) (
          field (text "consistency") (str (text "NON_ATOMIC_ENUMERATION")) (
            field (text "installation_id") (str (text "42")) (
              field (text "total_visible_repositories") (num (pos 2)) (
                field (text "enumerated_open_pull_requests") (num (pos 9))
                  (field (text "worker_assignments") (arr listed) end))))))))

abbrev env : Value
env = obj (
    field (text "BKE_ADMIN_BROKER_ENABLED") (str (text "true"))
      (field (text "BKE_ADMIN_PR_INVENTORY_ENABLED") (str (text "true")) end))

abbrev asked : Value
asked = obj (field (text "purpose") (str (text "admin_worker_assignment_inventory")) end)

abbrev one : Value
one = entry (text "jan2xo/bke-worker") 7 (text "bke-worker:a")

abbrev two : Value
two = entry (text "jan2xo/bke-worker") 8 (text "bke-worker:b")

-- The same pull request, in other letters.
abbrev one_again : Value
one_again = entry (text "Jan2xo/BKE-worker") 7 (text "bke-worker:c")

abbrev snapshot : Snapshot
snapshot = record {
  installation_id = text "42";
  total_visible_repositories = 2;
  enumerated_open_pull_requests = 9;
  worker_assignments = map safe_assignment (one ∷ two ∷ []);
}

-- The first answer is handed out; the second, with one pull request twice, is refused.
answers :
    (fulfill_admin_assignments lower_ascii text_or_empty env asked (answer (entries one two))
      ≡ inr snapshot)
    × (fulfill_admin_assignments lower_ascii text_or_empty env asked
          (answer (entries one one_again))
        ≡ inl assignment_response_invalid)
unfolding fulfill_admin_assignments is_purpose is_snapshot is_installation is_count
    is_installation_id project is_safe_item is_repo_name is_dotted is_commit has_worker_label
    label_of only_label is_worker_label pull_request_key safe_assignment joined_keys join_texts text
    text_eq is_text get is_object sort fields_of is_text_where is_run is_array elements number_of
    is_repo includes is_positive_safe is_sha is_truthy text_or_empty is_worker_id insert_sorted
    get_field every is_hex_unit is_lower_or_digit is_name_unit is_worker_unit decimal digits_from
    has_text split_at starts_with text_leb
answers = (refl, refl)

fulfill-IsOwnership_example : IsOwnership lower_ascii snapshot
fulfill-IsOwnership_example =
    fulfill-IsOwnership lower_ascii text_or_empty env asked (answer (entries one two)) snapshot
      answers.0

project_iff_example :
    (project lower_ascii text_or_empty [] [] (one ∷ two ∷ [])
      ≡ some (map safe_assignment (one ∷ two ∷ [])))
    ↔ (All (IsSafe lower_ascii text_or_empty) (one ∷ two ∷ [])
        × IsDistinct (map (pull_request_key lower_ascii) (one ∷ two ∷ []))
        × IsDistinct (map label_of (one ∷ two ∷ []))
        × (map safe_assignment (one ∷ two ∷ []) ≡ map safe_assignment (one ∷ two ∷ [])))
project_iff_example =
    project_iff lower_ascii text_or_empty (one ∷ two ∷ []) (map safe_assignment (one ∷ two ∷ []))
