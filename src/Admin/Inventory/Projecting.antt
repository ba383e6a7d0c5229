-- ===== src/Admin/Inventory/Projecting.antt =====
-- One pull request of `cloudflare-relay/src/admin-assignment-inventory.js`, and the loop over the
-- pull requests of a page.
use bke_worker.Prelude.{
  ◌++◌, length, leb, ◌||◌, drop, none, ◌&&◌, inl, some, [], ◌∷◌, not, false, Option, inr,
  if◌then◌else◌, ℕ, Bool, List,
}
use bke_worker.Admin.Inventory.{
  capacity_exceeded, ◌>>=◌, max_assignments, label_invalid, worker_conflict, pr_duplicate,
  pull_request_invalid, label_conflict, label_pagination_incomplete, Projected, Result, Progress,
  Repo,
}
use bke_worker.Js.Value.{
  elements, text_or_empty, bool, same_value, is_array, number_of, is_num, is_positive_safe, get,
  Value,
}
use bke_worker.Protocol.Assignments.{is_truthy}
use bke_worker.Target.Page.{is_string}
use bke_worker.Admin.Assignments.{is_commit}
use bke_worker.Protocol.Patterns.{is_worker_id}
use bke_worker.Text.{starts_with, has_text, text_eq, text, Text}

-- What is projected: the item that the loop builds from a node
pub record Item : Type 0 where
  pub number : Value
  pub state : Text
  pub sha : Value
  pub labels : Value

-- The loop over the labels of an item: those of a worker, in order.
unfoldable pub worker_labels : List Value → Result (List Text)
worker_labels [] = inr []
worker_labels (label ∷ rest) =
    let name = get label (text "name") in
    let later = worker_labels rest in
    if not (is_truthy label && is_string name)
    then inl pull_request_invalid
    else if not (starts_with (text_or_empty name) (text "bke-worker:"))
    then later
    else if not (is_worker_id (drop 11 (text_or_empty name)))
    then inl label_invalid
    else (later >>= λ labels. inr (text_or_empty name ∷ labels))

-- The entry of a pull request with these labels, if one is a worker's.
unfoldable pub projected_with : Repo → Item → List Text → Result (Option Projected)
projected_with repo item [] = inr none
projected_with repo item (label ∷ []) = inr (
    some (record {
      repository = repo.name;
      repository_id = repo.id;
      number = number_of item.number;
      head_sha = item.sha;
      label = label;
    }))
projected_with repo item (label ∷ other ∷ rest) = inl label_conflict

-- `set.has(v)`, of a set of numbers
unfoldable pub has_value : List ℕ → Value → Bool
has_value [] v = false
has_value (n ∷ ns) v = is_num v n || has_value ns v

-- The node's labels are there, and are all of them.
unfoldable pub has_all_labels : Value → Bool
has_all_labels node =
    let labels = get node (text "labels") in
    is_truthy labels
    && is_array (get labels (text "nodes"))
    && same_value (get (get labels (text "pageInfo")) (text "hasNextPage")) (bool false)

module _ (lower : Text → Text) (to_text : Value → Text) where
  -- `prProjection`
  unfoldable pub pr_projection : Item → Repo → Result (Option Projected)
  pr_projection item repo =
      if is_positive_safe item.number
        && text_eq item.state (text "open")
        && is_commit to_text item.sha
        && is_array item.labels
        && leb (length (elements item.labels)) 100
      then (worker_labels (elements item.labels) >>= projected_with repo item)
      else inl pull_request_invalid

  unfoldable pub item_of : Value → Item
  item_of node =
      let state = get node (text "state") in
      record {
        number = get node (text "number");
        state = lower (if is_truthy state then to_text state else []);
        sha = get node (text "headRefOid");
        labels = get (get node (text "labels")) (text "nodes");
      }

  -- The entry joins those before it, if it names a worker that none of them names.
  unfoldable pub claim_worker : Progress → Option Projected → Result Progress
  claim_worker p none = inr p
  claim_worker p (some entry) =
      let worker = drop 11 entry.label in
      if has_text p.worker_claims worker
      then inl worker_conflict
      else if not (leb (length (p.assignments ++ (entry ∷ []))) max_assignments)
      then inl capacity_exceeded
      else inr (record p {
        assignments = p.assignments ++ (entry ∷ []);
        worker_claims = worker ∷ p.worker_claims;
      })

  -- One round of the loop over a page's nodes, with the numbers that the repository's set has.
  unfoldable pub add_node :
      Repo → (numbers : List ℕ) → Value → Progress → Result (List ℕ × Progress)
  add_node repo numbers node p =
      let item = item_of node in
      if not (has_all_labels node)
      then inl label_pagination_incomplete
      else if has_value numbers item.number
      then inl pr_duplicate
      else do
        entry ← pr_projection item repo
        later ← claim_worker p entry
        inr (number_of item.number ∷ numbers, later)

  unfoldable pub add_nodes :
      Repo → (numbers : List ℕ) → List Value → Progress → Result (List ℕ × Progress)
  add_nodes repo numbers [] p = inr (numbers, p)
  add_nodes repo numbers (node ∷ rest) p =
      add_node repo numbers node p >>= λ added. add_nodes repo added.0 rest added.1
