-- ===== src/Text/Numbered.antt =====
-- A text, a hash sign and a number: both are read back.
use bke_worker.Text.Decimal.{digits_from, decimal}
use bke_worker.Prelude.{
  ◌%◌, ◌/◌, ◌-◌, ◌+◌, length-append, ◌*◌, length, ◌==◌, zero, refl, ap, ◌∙◌, suc, sym,
  if◌then◌else◌, [], arith, ◌<◌, ◌∷◌, ◌≡◌, ℕ, ◌++◌,
}
use bke_worker.Text.{Text}

-- The number after the last hash sign of a text, of which `k` is what was read.
last_number : Text → ℕ → ℕ
last_number [] k = k
last_number (c ∷ t) k = last_number t (if c == b'#' then 0 else k * 10 + (c - b'0'))

last_number-hash : (s rest : Text) (k : ℕ) → last_number (s ++ (b'#' ∷ rest)) k ≡ last_number rest 0
unfolding last_number
last_number-hash [] rest k = refl
last_number-hash (c ∷ s) rest k = last_number-hash s rest _

last_number-digits_from :
    (fuel n : ℕ) (acc : Text)
    → n < fuel
    → last_number (digits_from fuel n acc) 0 ≡ last_number acc n
unfolding last_number digits_from
last_number-digits_from zero n acc h = absurd (omega arith)
last_number-digits_from (suc fuel) n acc h =
    ground (arith, last_number-digits_from fuel (n / 10) ((b'0' + n % 10) ∷ acc))

last_number-decimal : (n : ℕ) → last_number (decimal n) 0 ≡ n
unfolding last_number decimal
last_number-decimal n = last_number-digits_from (suc n) n [] (omega arith)

append_cancel : (xs ys zs : Text) → xs ++ zs ≡ ys ++ zs → xs ≡ ys
append_cancel [] [] zs h = refl
append_cancel [] (y ∷ ys) zs h = absurd (omega (arith, ap length h, length-append {0} ys zs))
append_cancel (x ∷ xs) [] zs h = absurd (omega (arith, ap length h, length-append {0} xs zs))
append_cancel (x ∷ xs) (y ∷ ys) zs h =
    let tails : xs ++ zs ≡ ys ++ zs = ground arith in
    let heads : x ≡ y = ground arith in ground (arith, append_cancel xs ys zs tails)

-- Texts that are numbered alike are alike, and have one number.
pub numbered_inj :
    (s t : Text) (m n : ℕ) → s ++ (b'#' ∷ decimal m) ≡ t ++ (b'#' ∷ decimal n) → (s ≡ t) × (m ≡ n)
numbered_inj s t m n h =
    let number : m ≡ n =
      sym (last_number-decimal m)
      ∙ sym (last_number-hash s (decimal m) 0)
      ∙ ap (λ u. last_number u 0) h
      ∙ last_number-hash t (decimal n) 0
      ∙ last_number-decimal n in
    (
      append_cancel s t (b'#' ∷ decimal m) (h ∙ ap (λ k. t ++ (b'#' ∷ decimal k)) (sym number)),
      number,
    )
