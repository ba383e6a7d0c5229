-- ===== src/Admin/Inventory/Listing.antt =====
-- `listInstalledWorkerAssignments` of `cloudflare-relay/src/admin-assignment-inventory.js`. `ask`
-- answers the requests, each with its place among them. `none` is a loop that runs out of fuel.
use bke_worker.Prelude.{
  true, false, inl, inr, [], ◌∷◌, none, some, zero, not, ◌+◌, leb, take, suc, Option, if◌then◌else◌,
  length, map, Bool, ℕ, List,
}
use bke_worker.Admin.Inventory.{
  get_repositories, post_access_token, get_installation, ◌>>=◌, post_query,
  subrequest_budget_exceeded, graphql_batch_size, max_graphql_calls, Result, Fetched, Loop, Job,
  Request, Repo, Projected,
}
use bke_worker.Text.{text, Text}
use bke_worker.Js.Integer.{is_positive, pos, same_integer, ℤ}
use bke_worker.Js.Value.{end, arr, num, str, field, cons, obj, nil, Items, Value}
use bke_worker.Admin.Inventory.Paging.{asked_of, query_of, after_query}
use bke_worker.Admin.Inventory.Repositories.{list_repos}
use bke_worker.Admin.Inventory.Grant.{access_token, installation_id, signed, Surroundings}

-- An entry as a value
abbrev pub entry_value : Projected → Value
entry_value entry = obj (
    field (text "repository") (str entry.repository) (
      field (text "repository_id") (num (pos entry.repository_id)) (
        field (text "number") (num (pos entry.number)) (
          field (text "state") (str (text "open")) (
            field (text "head_sha") entry.head_sha
              (field (text "labels") (arr (cons (str entry.label) nil)) end))))))

abbrev pub entry_items : List Projected → Items
entry_items [] = nil
entry_items (entry ∷ rest) = cons (entry_value entry) (entry_items rest)

-- `a.repository.localeCompare(b.repository) || a.number - b.number`, at most 0
unfoldable pub is_not_after : (Text → Text → ℤ) → Projected → Projected → Bool
is_not_after locale_compare a b =
    let order = locale_compare a.repository b.repository in
    if same_integer order (pos 0) then leb a.number b.number else not (is_positive order)

unfoldable pub insert_entry : (Text → Text → ℤ) → Projected → List Projected → List Projected
insert_entry locale_compare a [] = a ∷ []
insert_entry locale_compare a (b ∷ rest) =
    if is_not_after locale_compare a b then a ∷ b ∷ rest else b ∷ insert_entry locale_compare a rest

-- `assignments.sort(...)`
unfoldable pub sort_entries : (Text → Text → ℤ) → List Projected → List Projected
sort_entries locale_compare [] = []
sort_entries locale_compare (a ∷ rest) =
    insert_entry locale_compare a (sort_entries locale_compare rest)

unfoldable pub inventory_value :
    (installation : Text) → (repositories enumerated : ℕ) → List Projected → Value
inventory_value installation repositories enumerated entries = obj (
    field (text "principal") (str (text "github_app_installation")) (
      field (text "authority") (str (text "EXISTING_GITHUB_APP_INSTALLATION")) (
        field (text "repository_scope") (str (text "INSTALLATION_APPROVED_ONLY")) (
          field (text "installation_id") (str installation) (
            field (text "total_visible_repositories") (num (pos repositories)) (
              field (text "enumerated_open_pull_requests") (num (pos enumerated)) (
                field (text "consistency") (str (text "NON_ATOMIC_ENUMERATION"))
                  (field (text "worker_assignments") (arr (entry_items entries)) end))))))))

unfoldable pub first_job : Repo → Job
first_job repo = record { repo = repo; cursor = none; page = 0; total = none; numbers = [] }

unfoldable pub first_loop : List Repo → Loop
first_loop repos = record {
  progress = record { assignments = []; worker_claims = []; enumerated_open = 0 };
  pending = map first_job repos;
  graph_calls = 0;
}

-- The three requests before the loop.
abbrev pub rest_calls : ℕ
rest_calls = 3

module _ (sur : Surroundings) (ask : ℕ → Request → Fetched) where
  -- One round of the loop over `pending`
  unfoldable pub query_batch : (token : Text) → Loop → Result Loop
  query_batch token l =
      let batch = take graphql_batch_size l.pending in
      after_query sur.lower sur.to_text
        (ask (rest_calls + l.graph_calls) (post_query token (query_of batch) (map asked_of batch)))
        l

  -- The loop over `pending`
  unfoldable pub drain : (fuel : ℕ) → (token : Text) → Loop → Option (Result Loop)
  drain zero token l = none
  drain (suc fuel) token l = elim l.pending [
    | [] ↦ some (inr l)
    | _ ∷ _ ↦ elim (leb max_graphql_calls l.graph_calls) [
      | true ↦ some (inl subrequest_budget_exceeded)
      | false ↦ elim (query_batch token l) [
        | inl e ↦ some (inl e)
        | inr next ↦ drain fuel token next
      ]
    ]
  ]

  -- One round more than the calls that the loop may make.
  abbrev pub enough : ℕ
  enough = suc max_graphql_calls

  -- What is read before the loop: the installation, the token and the repositories.
  unfoldable pub prepare : (env : Value) → Result (Text × Text × List Repo)
  prepare env = do
    jwt ← signed sur env
    installation ← installation_id sur (ask 0 (get_installation jwt))
    token ← access_token sur (ask 1 (post_access_token jwt installation))
    repos ← list_repos sur.lower (ask 2 (get_repositories token))
    inr (installation, token, repos)

  unfoldable pub finish : (installation : Text) → List Repo → Loop → Value
  finish installation repos l =
      inventory_value installation (length repos) l.progress.enumerated_open
        (sort_entries sur.locale_compare l.progress.assignments)

  unfoldable pub list_installed_worker_assignments : (env : Value) → Option (Result Value)
  list_installed_worker_assignments env = elim (prepare env) [
    | inl e ↦ some (inl e)
    | inr (installation, token, repos) ↦ elim (drain enough token (first_loop repos)) [
      | none ↦ none
      | some (inl e) ↦ some (inl e)
      | some (inr l) ↦ some (inr (finish installation repos l))
    ]
  ]
