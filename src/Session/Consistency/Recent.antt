-- ===== src/Session/Consistency/Recent.antt =====
-- The window of recent deliveries: at most 64, each once, the newest always among them.
use bke_worker.Prelude.{
  length-append, true, zero, suc, ℕ, false, not, ◌||◌, ◌-◌, ◌≤◌, ◌≡◌, refl, List, [], ◌∷◌, ◌++◌,
  length, length-drop, drop, keep, take_last, arith, Bool-cases, inl, inr,
}
use bke_worker.Text.{Text, text_eq, has_text}
use bke_worker.Text.Distinct.{IsDistinct}
use bke_worker.Text.Equality.{text_eq_refl, text_eq_comm}
use bke_worker.Session.State.{Session}
use bke_worker.Session.Dispatch.{remember_delivery, recent_delivery_limit}

abbrev others : Text → List Text → List Text
others d = keep (λ item. not (text_eq item d))

has_text-others :
    (d x : Text) (xs : List Text) → has_text xs x ≡ false → has_text (others d xs) x ≡ false
unfolding keep has_text
has_text-others d x [] h = refl
has_text-others d x (y ∷ ys) h = ground (arith, has_text-others d x ys)

has_text-others_self : (d : Text) (xs : List Text) → has_text (others d xs) d ≡ false
unfolding keep has_text
has_text-others_self d [] = refl
has_text-others_self d (y ∷ ys) = ground (arith, has_text-others_self d ys)

others-IsDistinct : (d : Text) (xs : List Text) → IsDistinct xs → IsDistinct (others d xs)
unfolding keep
others-IsDistinct d [] h = tt
others-IsDistinct d (y ∷ ys) h = elim (Bool-cases (text_eq y d)) [
  | inl same ↦ rw same (others-IsDistinct d ys h.1)
  | inr other ↦ rw other (has_text-others d y ys h.0, others-IsDistinct d ys h.1)
]

has_text-append :
    (xs ys : List Text) (x : Text) → has_text (xs ++ ys) x ≡ (has_text xs x || has_text ys x)
unfolding has_text
has_text-append [] ys x = refl
has_text-append (y ∷ xs) ys x = ground (arith, has_text-append xs ys x)

snoc-IsDistinct :
    (xs : List Text) (d : Text) → has_text xs d ≡ false → IsDistinct xs → IsDistinct (xs ++ d ∷ [])
unfolding has_text
snoc-IsDistinct [] d new h = (refl, tt)
snoc-IsDistinct (x ∷ xs) d new h = (
  rw (has_text-append xs (d ∷ []) x) (ground (arith, text_eq_comm d x)),
  snoc-IsDistinct xs d (ground arith) h.1,
)

drop-IsDistinct : (n : ℕ) (xs : List Text) → IsDistinct xs → IsDistinct (drop n xs)
drop-IsDistinct zero xs h = h
drop-IsDistinct (suc n) [] h = tt
drop-IsDistinct (suc n) (x ∷ xs) h = drop-IsDistinct n xs h.1

module _ (s : Session) (d : Text) where
  pub remember_delivery-bounded : length (remember_delivery s d).recent ≤ recent_delivery_limit
  unfolding remember_delivery take_last
  remember_delivery-bounded =
      omega (
        arith,
        length-drop (length (others d s.recent ++ d ∷ []) - 64) (others d s.recent ++ d ∷ []),
      )

  pub remember_delivery-IsDistinct : IsDistinct s.recent → IsDistinct (remember_delivery s d).recent
  unfolding remember_delivery take_last
  remember_delivery-IsDistinct h = drop-IsDistinct _ _ (
      snoc-IsDistinct (others d s.recent) d (has_text-others_self d s.recent)
        (others-IsDistinct d s.recent h))

pub record HasRecent (s : Session) : Type 0 where
  pub bounded : length s.recent ≤ recent_delivery_limit
  pub distinct : IsDistinct s.recent

pub HasRecent-same : {s t : Session} → t.recent ≡ s.recent → HasRecent s → HasRecent t
HasRecent-same e h = record { bounded = rw e h.bounded; distinct = rw e h.distinct }

pub remember_delivery-HasRecent :
    (s : Session) (d : Text) → HasRecent s → HasRecent (remember_delivery s d)
remember_delivery-HasRecent s d h = record {
  bounded = remember_delivery-bounded s d;
  distinct = remember_delivery-IsDistinct s d h.distinct;
}

drop-snoc :
    (n : ℕ) (init : List Text) (d : Text)
    → n ≤ length init
    → has_text (drop n (init ++ d ∷ [])) d ≡ true
unfolding has_text
drop-snoc zero [] d h = ground (arith, text_eq_refl d)
drop-snoc zero (x ∷ init) d h = ground (arith, drop-snoc zero init d)
drop-snoc (suc n) [] d h = absurd (omega arith)
drop-snoc (suc n) (x ∷ init) d h = drop-snoc n init d (omega arith)

-- A delivery that was just remembered is found.
pub has_text-remember_delivery :
    (s : Session) (d : Text) → has_text (remember_delivery s d).recent d ≡ true
unfolding remember_delivery take_last
has_text-remember_delivery s d =
    let init = others d s.recent in
    drop-snoc (length (init ++ d ∷ []) - 64) init d (omega (arith, length-append init (d ∷ [])))
