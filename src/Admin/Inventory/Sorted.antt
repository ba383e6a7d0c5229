-- ===== src/Admin/Inventory/Sorted.antt =====
-- Sorting the entries of `cloudflare-relay/src/admin-assignment-inventory.js` keeps what is said of
-- all of them.
use bke_worker.Prelude.{
  ap, refl, [], ◌∙◌, suc, arith, if_holds, ◌∷◌, false, ◌||◌, All, length, map, ◌≡◌, ◌++◌, List,
}
use bke_worker.Js.Integer.{ℤ}
use bke_worker.Admin.Inventory.{Projected}
use bke_worker.Text.Distinct.{IsDistinct}
use bke_worker.Admin.Inventory.Listing.{is_not_after, insert_entry, sort_entries}
use bke_worker.Text.Equality.{text_eq_comm}
use bke_worker.Text.{text_eq, Text, has_text}

abbrev pub labels_of : List Projected → List Text
labels_of entries = map (λ a. a.label) entries

pub has_text-append :
    (xs ys : List Text) (t : Text) → has_text (xs ++ ys) t ≡ (has_text xs t || has_text ys t)
unfolding has_text
has_text-append [] ys t = refl
has_text-append (x ∷ xs) ys t = ground (arith, has_text-append xs ys t)

pub IsDistinct-append :
    (xs : List Text) (t : Text)
    → IsDistinct xs
    → has_text xs t ≡ false
    → IsDistinct (xs ++ (t ∷ []))
unfolding has_text
IsDistinct-append [] t d h = (refl, tt)
IsDistinct-append (x ∷ xs) t d h = (
  ground (arith, has_text-append xs (t ∷ []) x, d.0, text_eq_comm x t),
  IsDistinct-append xs t d.1 (ground arith),
)

module _ (locale_compare : Text → Text → ℤ) where
  length-insert_entry :
      (a : Projected) (xs : List Projected)
      → length (insert_entry locale_compare a xs) ≡ suc (length xs)
  unfolding insert_entry
  length-insert_entry a [] = refl
  length-insert_entry a (b ∷ rest) = ground (arith, length-insert_entry a rest)

  pub length-sort_entries :
      (xs : List Projected) → length (sort_entries locale_compare xs) ≡ length xs
  unfolding sort_entries
  length-sort_entries [] = refl
  length-sort_entries (a ∷ rest) =
      length-insert_entry a (sort_entries locale_compare rest) ∙ ap suc (length-sort_entries rest)

  module _ (P : Projected → Type 0) where
    insert_entry-All :
        (a : Projected) (xs : List Projected)
        → P a
        → All P xs
        → All P (insert_entry locale_compare a xs)
    unfolding insert_entry
    insert_entry-All a [] p h = (p, tt)
    insert_entry-All a (b ∷ rest) p h =
        if_holds (All P) (is_not_after locale_compare a b) _ _ (λ _. (p, h))
          (λ _. (h.0, insert_entry-All a rest p h.1))

    pub sort_entries-All : (xs : List Projected) → All P xs → All P (sort_entries locale_compare xs)
    unfolding sort_entries
    sort_entries-All [] h = tt
    sort_entries-All (a ∷ rest) h =
        insert_entry-All a (sort_entries locale_compare rest) h.0 (sort_entries-All rest h.1)

  module _ (f : Projected → Text) where
    has_text-insert_entry :
        (a : Projected) (xs : List Projected) (t : Text)
        → has_text (map f (insert_entry locale_compare a xs)) t
          ≡ (text_eq (f a) t || has_text (map f xs) t)
    unfolding insert_entry has_text
    has_text-insert_entry a [] t = refl
    has_text-insert_entry a (b ∷ rest) t =
        if_holds (λ ys. has_text (map f ys) t ≡ (text_eq (f a) t || has_text (map f (b ∷ rest)) t))
          (is_not_after locale_compare a b) _ _ (λ _. refl)
          (λ _. ground (arith, has_text-insert_entry a rest t))

    insert_entry-IsDistinct :
        (a : Projected) (xs : List Projected)
        → has_text (map f xs) (f a) ≡ false
        → IsDistinct (map f xs)
        → IsDistinct (map f (insert_entry locale_compare a xs))
    unfolding insert_entry has_text
    insert_entry-IsDistinct a [] h d = (refl, tt)
    insert_entry-IsDistinct a (b ∷ rest) h d =
        if_holds (λ ys. IsDistinct (map f ys)) (is_not_after locale_compare a b) _ _ (λ _. (h, d))
          (λ _. (
            ground (arith, has_text-insert_entry a rest (f b), text_eq_comm (f a) (f b), d.0),
            insert_entry-IsDistinct a rest (ground arith) d.1,
          ))

    has_text-sort_entries :
        (xs : List Projected) (t : Text)
        → has_text (map f (sort_entries locale_compare xs)) t ≡ has_text (map f xs) t
    unfolding sort_entries has_text
    has_text-sort_entries [] t = refl
    has_text-sort_entries (a ∷ rest) t =
        has_text-insert_entry a (sort_entries locale_compare rest) t
        ∙ ap (λ b. text_eq (f a) t || b) (has_text-sort_entries rest t)

    -- What differs from entry to entry still does.
    pub sort_entries-IsDistinct :
        (xs : List Projected)
        → IsDistinct (map f xs)
        → IsDistinct (map f (sort_entries locale_compare xs))
    unfolding sort_entries
    sort_entries-IsDistinct [] d = tt
    sort_entries-IsDistinct (a ∷ rest) d =
        insert_entry-IsDistinct a (sort_entries locale_compare rest)
          (has_text-sort_entries rest (f a) ∙ d.0) (sort_entries-IsDistinct rest d.1)
