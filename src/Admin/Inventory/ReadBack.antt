-- ===== src/Admin/Inventory/ReadBack.antt =====
-- What `cloudflare-relay/src/admin-assignment-inventory.js` returns, as
-- `cloudflare-relay/src/admin-broker.js` reads it.
use bke_worker.Js.Value.{
  text_or_empty, number_of, is_array, is_text, is_text_where, fields_of, items, is_object,
  get_field, get, elements, Value,
}
use bke_worker.Text.{text_leb, text_eq, text, Text}
use bke_worker.Admin.Assignments.{
  pull_request_key, is_count, is_safe_item, only_label, label_of, is_installation_id, is_snapshot,
}
use bke_worker.Admin.Inventory.{max_assignments, max_total_prs, Projected, max_repos}
use bke_worker.Prelude.{refl, ap, [], arith, map, suc, ◌∷◌, ◌≤◌, length, true, All, ◌≡◌, List, ℕ}
use bke_worker.Admin.Inventory.Listing.{entry_items, inventory_value}
use bke_worker.Admin.Inventory.Safe.{IsSafeEntry}
use bke_worker.Admin.Inventory.Sorted.{labels_of}
use bke_worker.Admin.Broker.{is_installation, join_texts, joined_keys}
use bke_worker.Js.Keys.{insert_sorted, sort}
use bke_worker.Admin.Inventory.Keyed.{key_of}

-- The entries as the broker reads them.
pub read-labels : (xs : List Projected) → map label_of (items (entry_items xs)) ≡ labels_of xs
unfolding label_of only_label get get_field text text_eq
read-labels [] = refl
read-labels (x ∷ xs) = ap (λ ls. x.label ∷ ls) (read-labels xs)

pub read-keys :
    (lower : Text → Text) (xs : List Projected)
    → map (pull_request_key lower) (items (entry_items xs)) ≡ map (key_of lower) xs
unfolding pull_request_key get get_field text text_eq text_or_empty number_of
read-keys lower [] = refl
read-keys lower (x ∷ xs) = ap (λ ks. key_of lower x ∷ ks) (read-keys lower xs)

pub read-safe :
    (to_text : Value → Text) (xs : List Projected)
    → All (IsSafeEntry to_text) xs
    → All (λ item. is_safe_item to_text item ≡ true) (items (entry_items xs))
read-safe to_text [] h = tt
read-safe to_text (x ∷ xs) h = (h.0, read-safe to_text xs h.1)

read-length : (xs : List Projected) → length (items (entry_items xs)) ≡ length xs
read-length [] = refl
read-length (x ∷ xs) = ap suc (read-length xs)

pub inventory_value-is_snapshot :
    (installation : Text) (repositories enumerated : ℕ) (xs : List Projected)
    → is_installation_id installation ≡ true
    → repositories ≤ max_repos
    → enumerated ≤ max_total_prs
    → length xs ≤ max_assignments
    → length xs ≤ enumerated
    → is_snapshot (inventory_value installation repositories enumerated xs) ≡ true
unfolding inventory_value is_snapshot get get_field is_object joined_keys join_texts sort
    insert_sorted text_leb fields_of text text_eq is_text_where is_text is_installation is_count
    is_array elements number_of
inventory_value-is_snapshot installation repositories enumerated xs ok few counted fits within =
    ground (arith, read-length xs)
