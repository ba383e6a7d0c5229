-- ===== src/Protocol/Assignments/Named.antt =====
-- The issues and pull requests that `normalizeRecoveryAssignments` of
-- `cloudflare-relay/src/protocol.js` looks for, read off GitHub's answer.
use bke_worker.Prelude.{
  ◌≡◌, ◌⊎◌, All, Bool-cases, List, Option, Option-cases, [], ◌∷◌, arith, if◌then◌else◌, inl, inr,
  none, refl, some, true, ℕ, ltb,
}
use bke_worker.Js.Integer.{ℤ, negsuc, pos}
use bke_worker.Js.Reads.{is_text→eq}
use bke_worker.Js.Value.{Value, elements, get, is_array, is_text, str}
use bke_worker.Protocol.Assignments.{
  candidates, has_label, has_number, is_candidate, is_truthy, positive_number, pull_by_number,
}
use bke_worker.Text.{Text, text, text_eq}
use bke_worker.Text.Equality.{text_eq_iff, text_eq_refl, text_eq→eq}

is_text-str : (t : Text) → is_text (str t) t ≡ true
unfolding is_text
is_text-str t = (text_eq_iff t t).1 refl

module _ (lower : Text → Text) (to_text : Value → Text) (to_integer : Value → Option ℤ) where
  -- A label has this name, in lower case.
  abbrev pub IsNamed : Text → Value → Type 0
  IsNamed wanted label =
      lower (if is_truthy (get label (text "name")) then to_text (get label (text "name")) else [])
      ≡ wanted

  abbrev pub AnyNamed : Text → List Value → Type 0
  AnyNamed wanted [] = ⊥
  AnyNamed wanted (label ∷ rest) = IsNamed wanted label ⊎ AnyNamed wanted rest

  -- The issue is an open pull request with the number `n` and the label.
  pub record Names (wanted : Text) (n : ℕ) (item : Value) : Type 0 where
    pub present : is_truthy item ≡ true
    pub is_pull : is_truthy (get item (text "pull_request")) ≡ true
    pub is_open : get item (text "state") ≡ str (text "open")
    pub number : to_integer (get item (text "number")) ≡ some (pos n)
    pub positive : ltb 0 n ≡ true
    pub has_labels : is_array (get item (text "labels")) ≡ true
    pub labelled : AnyNamed wanted (elements (get item (text "labels")))

  has_label→any :
      (wanted : Text) (ls : List Value)
      → has_label lower to_text to_integer wanted ls ≡ true
      → AnyNamed wanted ls
  unfolding has_label
  has_label→any wanted [] h = cc
  has_label→any wanted (l ∷ ls) h =
      let name =
        lower (if is_truthy (get l (text "name")) then to_text (get l (text "name")) else []) in
      elim (Bool-cases (text_eq name wanted)) [
        | inl same ↦ inl (text_eq→eq name wanted same)
        | inr other ↦ inr (has_label→any wanted ls (ground arith))
      ]

  any→has_label :
      (wanted : Text) (ls : List Value)
      → AnyNamed wanted ls
      → has_label lower to_text to_integer wanted ls ≡ true
  unfolding has_label
  any→has_label wanted [] h = absurd h
  any→has_label wanted (l ∷ ls) (inl here) = rw (here, text_eq_refl wanted) refl
  any→has_label wanted (l ∷ ls) (inr later) = ground (arith, any→has_label wanted ls later)

  positive_number→eq :
      (v : Value) (n : ℕ)
      → positive_number lower to_text to_integer v ≡ some n
      → (to_integer v ≡ some (pos n)) × (ltb 0 n ≡ true)
  unfolding positive_number
  positive_number→eq v n h = elim (Option-cases (to_integer v)) [
    | inl missing ↦ absurd (ground arith)
    | inr (pos m, is_m) ↦ (ground arith, ground arith)
    | inr (negsuc m, is_m) ↦ absurd (ground arith)
  ]

  eq→positive_number :
      (v : Value) (n : ℕ)
      → to_integer v ≡ some (pos n)
      → ltb 0 n ≡ true
      → positive_number lower to_text to_integer v ≡ some n
  unfolding positive_number
  eq→positive_number v n h k = ground arith

  candidate→Names :
      (wanted : Text) (n : ℕ) (item : Value)
      → positive_number lower to_text to_integer (get item (text "number")) ≡ some n
      → is_candidate lower to_text to_integer wanted item ≡ true
      → Names wanted n item
  unfolding is_candidate
  candidate→Names wanted n item numbered h =
      let (number, positive) = positive_number→eq (get item (text "number")) n numbered in
      record {
        present = ground arith;
        is_pull = ground arith;
        is_open = is_text→eq (get item (text "state")) (text "open") (ground arith);
        number = number;
        positive = positive;
        has_labels = ground arith;
        labelled = has_label→any wanted (elements (get item (text "labels"))) (ground arith);
      }

  Names→candidate :
      (wanted : Text) (n : ℕ) (item : Value)
      → Names wanted n item
      → (positive_number lower to_text to_integer (get item (text "number")) ≡ some n)
        × (is_candidate lower to_text to_integer wanted item ≡ true)
  unfolding is_candidate
  Names→candidate wanted n item h = (
    eq→positive_number (get item (text "number")) n h.number h.positive,
    rw
        (
          h.present,
          h.is_pull,
          h.is_open,
          is_text-str (text "open"),
          h.has_labels,
          any→has_label wanted _ h.labelled,
        )
        refl,
  )

  -- An issue gives a candidate exactly if it names the worker.
  pub Names-cases :
      (wanted : Text) (item : Value) (rest : List Value)
      → ((n : ℕ) × Names wanted n item
          × (candidates lower to_text to_integer wanted (item ∷ rest)
              ≡ n ∷ candidates lower to_text to_integer wanted rest))
        ⊎ (((n : ℕ) → ¬ Names wanted n item)
            × (candidates lower to_text to_integer wanted (item ∷ rest)
                ≡ candidates lower to_text to_integer wanted rest))
  unfolding candidates
  Names-cases wanted item rest =
      elim (Option-cases (positive_number lower to_text to_integer (get item (text "number")))) [
        | inl missing ↦
            inr (λ n h. let (numbered, ok) = Names→candidate wanted n item h in cc, ground arith)
        | inr (n, numbered) ↦
            elim (Bool-cases (is_candidate lower to_text to_integer wanted item)) [
              | inl yes_is ↦ inl (n, candidate→Names wanted n item numbered yes_is, ground arith)
              | inr other ↦
                  inr (
                    λ m h. let (numbered', ok) = Names→candidate wanted m item h in cc,
                    ground arith,
                  )
            ]
      ]

  -- A pull request has this number.
  pub record HasNumber (n : ℕ) (item : Value) : Type 0 where
    pub present : is_truthy item ≡ true
    pub number : to_integer (get item (text "number")) ≡ some (pos n)

  -- The last pull request that has the number.
  abbrev pub IsLast : ℕ → List Value → Value → Type 0
  IsLast n [] p = ⊥
  IsLast n (x ∷ xs) p = IsLast n xs p ⊎ ((x ≡ p) × HasNumber n x × All (λ y. ¬ HasNumber n y) xs)

  has_number→HasNumber :
      (n : ℕ) (item : Value) → has_number lower to_text to_integer n item ≡ true → HasNumber n item
  unfolding has_number
  has_number→HasNumber n item h = elim (Option-cases (to_integer (get item (text "number")))) [
    | inl missing ↦ absurd (ground arith)
    | inr (pos m, is_m) ↦ record { present = ground arith; number = ground arith }
    | inr (negsuc m, is_m) ↦ absurd (ground arith)
  ]

  HasNumber→has_number :
      (n : ℕ) (item : Value) → HasNumber n item → has_number lower to_text to_integer n item ≡ true
  unfolding has_number
  HasNumber→has_number n item h = ground (arith, h.present, h.number)

  none→All :
      (n : ℕ) (xs : List Value)
      → pull_by_number lower to_text to_integer n xs ≡ none
      → All (λ y. ¬ HasNumber n y) xs
  unfolding pull_by_number
  none→All n [] h = tt
  none→All n (x ∷ xs) h = elim (Option-cases (pull_by_number lower to_text to_integer n xs)) [
    | inl missing ↦
        (λ k. let e = HasNumber→has_number n x k in absurd (ground arith), none→All n xs missing)
    | inr (p, there) ↦ absurd (ground arith)
  ]

  pub pull_by_number-IsLast :
      (n : ℕ) (xs : List Value) (p : Value)
      → pull_by_number lower to_text to_integer n xs ≡ some p
      → IsLast n xs p
  unfolding pull_by_number
  pull_by_number-IsLast n [] p h = cc
  pull_by_number-IsLast n (x ∷ xs) p h =
      elim (Option-cases (pull_by_number lower to_text to_integer n xs)) [
        | inl missing ↦
            inr (ground arith, has_number→HasNumber n x (ground arith), none→All n xs missing)
        | inr (q, there) ↦ inl (pull_by_number-IsLast n xs p (ground arith))
      ]
