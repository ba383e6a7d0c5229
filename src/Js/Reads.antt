-- ===== src/Js/Reads.antt =====
-- What a passed test says of the value that was read.
use bke_worker.Prelude.{
  ℕ, ltb, Bool, true, false, ◌≡◌, refl, ap, subst, All, List, [], ◌∷◌, arith, Bool-cases, inl, inr,
}
use bke_worker.Text.{Text, text_eq, has_text}
use bke_worker.Text.Equality.{text_eq→eq}
use bke_worker.Js.Integer.{pos, negsuc}
use bke_worker.Js.Keys.{exact_keys}
use bke_worker.Js.Value.{
  obj, Value, num, str, Fields, end, field, undefined, keys, get_field, is_text, is_num,
  is_text_where, is_positive_integer, text_or_empty, number_of,
}

pub is_text→eq : (v : Value) (t : Text) → is_text v t ≡ true → v ≡ str t
unfolding is_text
is_text→eq (str s) t h = ap str (text_eq→eq s t h)
is_text→eq v t h = cc

pub is_num→eq : (v : Value) (n : ℕ) → is_num v n ≡ true → v ≡ num (pos n)
unfolding is_num
is_num→eq (num (pos m)) n h = ground arith
is_num→eq (num (negsuc m)) n h = cc
is_num→eq v n h = cc

module _ (p : Text → Bool) where
  pub is_text_where→eq : (v : Value) → is_text_where p v ≡ true → v ≡ str (text_or_empty v)
  unfolding is_text_where text_or_empty
  is_text_where→eq (str s) h = refl
  is_text_where→eq v h = cc

  pub is_text_where→holds : (v : Value) → is_text_where p v ≡ true → p (text_or_empty v) ≡ true
  unfolding is_text_where text_or_empty
  is_text_where→holds (str s) h = h
  is_text_where→holds v h = cc

pub is_positive_integer→eq :
    (v : Value) → is_positive_integer v ≡ true → v ≡ num (pos (number_of v))
unfolding is_positive_integer number_of
is_positive_integer→eq (num (pos n)) h = refl
is_positive_integer→eq (num (negsuc n)) h = cc
is_positive_integer→eq v h = cc

pub is_positive_integer→positive :
    (v : Value) → is_positive_integer v ≡ true → ltb 0 (number_of v) ≡ true
unfolding is_positive_integer number_of
is_positive_integer→positive (num (pos n)) h = h
is_positive_integer→positive (num (negsuc n)) h = cc
is_positive_integer→positive v h = cc

-- A key that an object lacks reads as `undefined`.
pub get_field-absent :
    (key : Text) (fs : Fields) → has_text (keys fs) key ≡ false → get_field key fs ≡ undefined
unfolding get_field has_text
get_field-absent key end h = refl
get_field-absent key (field k v fs) h = ground (arith, get_field-absent key fs)

-- What holds of each listed key holds of a key that the list has.
pub has_text→holds {ℓ} :
    (P : Text → Type ℓ) (ks : List Text) → All P ks → (key : Text) → has_text ks key ≡ true → P key
unfolding has_text
has_text→holds P [] a key h = cc
has_text→holds P (k ∷ ks) (here, rest) key h = elim (Bool-cases (text_eq k key)) [
  | inl same ↦ subst P (text_eq→eq k key same) here
  | inr other ↦ has_text→holds P ks rest key (ground arith)
]

-- Only an object passes the test on keys.
pub exact_keys→obj :
    (v : Value) (ks : List Text) → exact_keys v ks ≡ true → (fs : Fields) × (v ≡ obj fs)
unfolding exact_keys
exact_keys→obj (obj fs) ks h = (fs, refl)
exact_keys→obj v ks h = cc
