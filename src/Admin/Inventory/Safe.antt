-- ===== src/Admin/Inventory/Safe.antt =====
-- Every entry that `cloudflare-relay/src/admin-assignment-inventory.js` pushes passes the broker's
-- tests on an entry.
use bke_worker.Js.Value.{
  text_or_empty, is_text, is_text_where, fields_of, is_object, get_field, num, get, number_of,
  is_positive_safe, Value,
}
use bke_worker.Admin.Inventory.Repositories.{valid_repo}
use bke_worker.Admin.Inventory.Projecting.{worker_labels}
use bke_worker.Text.{starts_with, text_eq, text, text_leb, Text}
use bke_worker.Admin.Assignments.{
  is_commit, only_label, has_worker_label, is_worker_label, is_repo_name, is_safe_item,
}
use bke_worker.Prelude.{
  drop, ◌∙◌, sym, ap, not, ◌&&◌, if_holds, arith, refl, [], ◌∷◌, All, List, true, inr, ◌≡◌,
}
use bke_worker.Admin.Inventory.Listing.{entry_value}
use bke_worker.Js.Integer.{negsuc, pos}
use bke_worker.Admin.Broker.{join_texts, joined_keys}
use bke_worker.Js.Keys.{insert_sorted, sort}
use bke_worker.Protocol.Assignments.{is_truthy}
use bke_worker.Js.Reads.{is_text_where→holds}
use bke_worker.Target.Page.{is_string}
use bke_worker.Protocol.Patterns.{is_worker_id}
use bke_worker.Admin.Inventory.{bind-Gives, Gives, Projected, Repo}

abbrev pub IsSafeRepo : Repo → Type 0
IsSafeRepo repo = (is_repo_name repo.name ≡ true) × (is_positive_safe (num (pos repo.id)) ≡ true)

abbrev pub IsWorkerLabel : Text → Type 0
IsWorkerLabel t = is_worker_label t ≡ true

pub worker_labels-All : (vs : List Value) → Gives (All IsWorkerLabel) (worker_labels vs)
unfolding worker_labels is_worker_label
worker_labels-All [] = tt
worker_labels-All (v ∷ vs) =
    let name = get v (text "name") in
    if_holds (Gives (All IsWorkerLabel)) (not (is_truthy v && is_string name)) _ _ (λ _. tt)
      λ _.
        if_holds (Gives (All IsWorkerLabel))
          (not (starts_with (text_or_empty name) (text "bke-worker:"))) _ _
          (λ _. worker_labels-All vs)
          λ starts.
            if_holds (Gives (All IsWorkerLabel)) (not (is_worker_id (drop 11 (text_or_empty name))))
              _ _ (λ _. tt)
              λ named.
                bind-Gives (All IsWorkerLabel) (All IsWorkerLabel) (worker_labels vs)
                  (λ labels. inr (text_or_empty name ∷ labels)) (worker_labels-All vs)
                  (λ labels h. (ground arith, h))

module _ (to_text : Value → Text) where
  abbrev pub IsSafeEntry : Projected → Type 0
  IsSafeEntry a = is_safe_item to_text (entry_value a) ≡ true

  pub entry_value-safe :
      (a : Projected)
      → is_repo_name a.repository ≡ true
      → is_positive_safe (num (pos a.repository_id)) ≡ true
      → is_positive_safe (num (pos a.number)) ≡ true
      → is_commit to_text a.head_sha ≡ true
      → IsWorkerLabel a.label
      → IsSafeEntry a
  unfolding is_safe_item get get_field is_object joined_keys join_texts sort insert_sorted text_leb
      fields_of text text_eq is_text_where is_text has_worker_label only_label
  entry_value-safe a name id n sha label = ground arith

pub positive_safe-number : (v : Value) → is_positive_safe v ≡ true → v ≡ num (pos (number_of v))
unfolding is_positive_safe number_of
positive_safe-number (num (pos n)) h = refl
positive_safe-number (num (negsuc n)) h = cc
positive_safe-number v h = cc

pub valid_repo-IsSafeRepo : (v : Value) → Gives IsSafeRepo (valid_repo v)
unfolding valid_repo
valid_repo-IsSafeRepo v =
    if_holds (Gives IsSafeRepo)
      (is_positive_safe (get v (text "id"))
        && is_text_where is_repo_name (get v (text "full_name")))
      _ _
      (λ h.
        let id = positive_safe-number (get v (text "id")) (ground arith) in
        (
          is_text_where→holds is_repo_name (get v (text "full_name")) (ground arith),
          ap is_positive_safe (sym id) ∙ ground arith,
        ))
      (λ _. tt)
