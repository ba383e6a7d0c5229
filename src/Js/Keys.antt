-- ===== src/Js/Keys.antt =====
-- Tests on the keys of an object: `exactKeys` of `cloudflare-relay/src/protocol.js`, which sorts,
-- and the `exact` that the retirement modules write, which counts and looks each key up.
use bke_worker.Prelude.{Bool, true, false, ◌&&◌, List, [], ◌∷◌, length, every, ◌==◌, if◌then◌else◌}
use bke_worker.Text.{Text, text_eq, text_leb, has_text}
use bke_worker.Js.Value.{Value, obj, keys}

unfoldable pub insert_sorted : Text → List Text → List Text
unfolding text_leb
insert_sorted k [] = k ∷ []
insert_sorted k (x ∷ xs) = if text_leb k x then k ∷ x ∷ xs else x ∷ insert_sorted k xs

-- `keys.sort()`
unfoldable pub sort : List Text → List Text
unfolding insert_sorted
sort [] = []
sort (k ∷ ks) = insert_sorted k (sort ks)

-- `a.length === b.length && a.every((key, index) => key === b[index])`
unfoldable pub texts_eq : List Text → List Text → Bool
unfolding text_eq
texts_eq [] [] = true
texts_eq [] (y ∷ ys) = false
texts_eq (x ∷ xs) [] = false
texts_eq (x ∷ xs) (y ∷ ys) = text_eq x y && texts_eq xs ys

unfoldable pub exact_keys : Value → List Text → Bool
unfolding sort texts_eq
exact_keys (obj fs) expected = texts_eq (sort (keys fs)) (sort expected)
exact_keys v expected = false

unfoldable pub exact : Value → List Text → Bool
unfolding every has_text
exact (obj fs) expected =
    (length (keys fs) == length expected) && every (has_text (keys fs)) expected
exact v expected = false
