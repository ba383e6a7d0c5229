-- ===== src/Attempt/Remembered.antt =====
-- What a valid history of `browser-extension/src/bootstrap-fence.ts` holds.
use bke_worker.Prelude.{
  ◌||◌, ap, inr, ◌∙◌, refl, inl, Bool, option_holds, false, Bool-cases, [], some, arith, true, ◌∷◌,
  ◌≡◌, ◌≤◌, length, All, List, every,
}
use bke_worker.Attempt.Platform.{
  is_identifier, Platform, conversation_path, conversation_id_of, conversation_id_from_url,
}
use bke_worker.Text.{text_eq, has_text, Text}
use bke_worker.Js.Value.{str, elements, text_or_empty, is_text, is_text_where, Value}
use bke_worker.Text.Distinct.{IsDistinct}
use bke_worker.Js.Reads.{is_text_where→holds}
use bke_worker.Attempt.History.{includes_text, texts, dense_valid_history, set_size}

set_size-le : (xs : List Text) → set_size xs ≤ length xs
unfolding set_size
set_size-le [] = omega arith
set_size-le (x ∷ xs) = ground (arith, set_size-le xs)

set_size-IsDistinct : (xs : List Text) → set_size xs ≡ length xs → IsDistinct xs
unfolding set_size
set_size-IsDistinct [] h = tt
set_size-IsDistinct (x ∷ xs) h = elim (Bool-cases (has_text xs x)) [
  | inl e ↦ absurd (ground (arith, set_size-le xs))
  | inr e ↦ (e, set_size-IsDistinct xs (ground arith))
]

length-texts : (vs : List Value) → length (texts vs) ≡ length vs
unfolding texts
length-texts [] = refl
length-texts (v ∷ vs) = omega (arith, length-texts vs)

-- A string that an array lacks is none of its strings, if it holds nothing else.
has_text-texts :
    (p : Text → Bool) (vs : List Value) (t : Text)
    → every (is_text_where p) vs ≡ true
    → has_text (texts vs) t ≡ includes_text vs t
unfolding every texts includes_text has_text is_text_where is_text text_or_empty
has_text-texts p [] t h = refl
has_text-texts p (str s ∷ vs) t h =
    ap (λ b. text_eq s t || b) (has_text-texts p vs t (ground arith))
has_text-texts p (v ∷ vs) t h = cc

-- Every conversation of the history is an identifier, and none occurs twice.
pub record IsHistory (ids : List Text) : Type 0 where
  pub all_identifiers : All (λ t. is_identifier t ≡ true) ids
  pub distinct : IsDistinct ids

strings-identifiers :
    (vs : List Value)
    → every (is_text_where is_identifier) vs ≡ true
    → All (λ t. is_identifier t ≡ true) (texts vs)
unfolding every texts
strings-identifiers [] h = tt
strings-identifiers (v ∷ vs) h =
    (is_text_where→holds is_identifier v (ground arith), strings-identifiers vs (ground arith))

pub valid-IsHistory : (v : Value) → dense_valid_history v ≡ true → IsHistory (texts (elements v))
unfolding dense_valid_history
valid-IsHistory v h = record {
  all_identifiers = strings-identifiers (elements v) (ground arith);
  distinct = set_size-IsDistinct (texts (elements v)) (ground (arith, length-texts (elements v)));
}

-- A conversation that the history lacks may be added.
pub added-IsHistory :
    (v : Value) (id : Text)
    → dense_valid_history v ≡ true
    → is_identifier id ≡ true
    → includes_text (elements v) id ≡ false
    → IsHistory (id ∷ texts (elements v))
unfolding dense_valid_history
added-IsHistory v id h k apart =
    let prior = valid-IsHistory v h in
    record {
      all_identifiers = (k, prior.all_identifiers);
      distinct =
          (has_text-texts is_identifier (elements v) id (ground arith) ∙ apart, prior.distinct);
    }

-- The conversation of a URL is an identifier.
pub conversation_id_from_url-identifier :
    (js : Platform) (raw id : Text)
    → conversation_id_from_url js raw ≡ some id
    → is_identifier id ≡ true
unfolding conversation_id_from_url conversation_id_of conversation_path
conversation_id_from_url-identifier js raw id =
    option_holds (λ o. o ≡ some id → is_identifier id ≡ true) (js.parse_url raw) _ _ (λ _ h. cc)
      λ url _ h. ground arith
