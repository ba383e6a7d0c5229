-- ===== src/Text/Digits.antt =====
-- Facts about the decimal digits of a number: their class and how many there are.
use native.Mathlib.Nat.{pow-suc}
use bke_worker.Prelude.{
  subst, ℕ, zero, suc, ◌+◌, ◌^◌, ◌/◌, ◌%◌, ◌<◌, ◌≤◌, Bool, true, ◌≡◌, refl, [], ◌∷◌, length, arith,
  every,
}
use bke_worker.Text.{Text}
use bke_worker.Text.Decimal.{digits_from, decimal}

-- Every unit that is written is a digit.
every-digits_from :
    (class : ℕ → Bool)
    → ((d : ℕ) → d < 10 → class (b'0' + d) ≡ true)
    → (fuel n : ℕ) (acc : Text) → every class acc ≡ true
    → every class (digits_from fuel n acc) ≡ true
unfolding digits_from every
every-digits_from class digit zero n acc h = h
every-digits_from class digit (suc fuel) n acc h = ground (
  arith,
  digit n,
  digit (n % 10),
  every-digits_from class digit fuel (n / 10) ((b'0' + n % 10) ∷ acc),
)

pub every-decimal :
    (class : ℕ → Bool)
    → ((d : ℕ) → d < 10 → class (b'0' + d) ≡ true)
    → (n : ℕ) → every class (decimal n) ≡ true
unfolding decimal every
every-decimal class digit n = every-digits_from class digit (suc n) n [] refl

div10_below : (k n : ℕ) → n < 10 ^ suc k → n / 10 < 10 ^ k
div10_below k n h = omega (arith, subst (λ m. n < m) (pow-suc 10 k) h)

length-digits_from :
    (k fuel n : ℕ) (acc : Text)
    → n < 10 ^ k
    → 0 < k
    → length (digits_from fuel n acc) ≤ k + length acc
unfolding digits_from
length-digits_from zero fuel n acc h p = absurd (omega arith)
length-digits_from (suc k) zero n acc h p = omega arith
length-digits_from (suc zero) (suc fuel) n acc h p = ground arith
length-digits_from (suc (suc k)) (suc fuel) n acc h p =
    let below = div10_below (suc k) n h in
    ground (arith, length-digits_from (suc k) fuel (n / 10) ((b'0' + n % 10) ∷ acc) below)

pub length-decimal : (k n : ℕ) → n < 10 ^ k → 0 < k → length (decimal n) ≤ k
unfolding decimal
length-decimal k n h p = omega (arith, length-digits_from k (suc n) n [] h p)
