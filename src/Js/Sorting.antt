-- ===== src/Js/Sorting.antt =====
-- What the two tests on keys say of an object.
use bke_worker.Prelude.{true, ◌||◌, ◌≡◌, refl, sym, ap, ◌∙◌, List, [], ◌∷◌, arith}
use bke_worker.Text.{Text, text_eq, has_text}
use bke_worker.Text.Equality.{text_eq→eq}
use bke_worker.Js.Value.{Fields, obj, keys}
use bke_worker.Js.Keys.{insert_sorted, sort, texts_eq, exact_keys}

pub texts_eq→eq : (xs ys : List Text) → texts_eq xs ys ≡ true → xs ≡ ys
unfolding texts_eq
texts_eq→eq [] [] h = refl
texts_eq→eq [] (y ∷ ys) h = cc
texts_eq→eq (x ∷ xs) [] h = cc
texts_eq→eq (x ∷ xs) (y ∷ ys) h = ground (arith, text_eq→eq x y, texts_eq→eq xs ys)

has_text-insert_sorted :
    (k x : Text) (xs : List Text) → has_text (insert_sorted k xs) x ≡ (text_eq k x || has_text xs x)
unfolding insert_sorted has_text
has_text-insert_sorted k x [] = refl
has_text-insert_sorted k x (y ∷ ys) = ground (arith, has_text-insert_sorted k x ys)

-- Sorting keeps the strings of a list.
pub has_text-sort : (xs : List Text) (x : Text) → has_text (sort xs) x ≡ has_text xs x
unfolding sort has_text
has_text-sort [] x = refl
has_text-sort (k ∷ ks) x =
    has_text-insert_sorted k x (sort ks) ∙ ap (λ b. text_eq k x || b) (has_text-sort ks x)

-- An object that passes has just the expected keys.
pub has_text-exact_keys :
    (fs : Fields) (expected : List Text)
    → exact_keys (obj fs) expected ≡ true
    → (x : Text) → has_text (keys fs) x ≡ has_text expected x
unfolding exact_keys
has_text-exact_keys fs expected h x =
    sym (has_text-sort (keys fs) x)
    ∙ ap (λ ks. has_text ks x) (texts_eq→eq (sort (keys fs)) (sort expected) h)
    ∙ has_text-sort expected x
