-- ===== src/Admin/Inventory/Numbers.antt =====
-- The numbers that were read of a repository, in
-- `cloudflare-relay/src/admin-assignment-inventory.js`.
use bke_worker.Prelude.{◌==◌, refl, ap, [], arith, true, ◌∷◌, ◌≡◌, ℕ, List}
use bke_worker.Admin.Inventory.Projecting.{has_value}
use bke_worker.Admin.Inventory.Repositories.{has_number}
use bke_worker.Js.Value.{num, is_num, number_of, is_positive_safe, Value}
use bke_worker.Admin.Inventory.Safe.{positive_safe-number}
use bke_worker.Js.Integer.{pos}

num_eq : (v : Value) (n : ℕ) → v ≡ num (pos (number_of v)) → is_num v n ≡ (number_of v == n)
unfolding is_num number_of
num_eq v n e = ap (λ w. is_num w n) e

pub has_value-number :
    (numbers : List ℕ) (v : Value)
    → is_positive_safe v ≡ true
    → has_value numbers v ≡ has_number numbers (number_of v)
unfolding has_value has_number
has_value-number [] v h = refl
has_value-number (n ∷ numbers) v h =
    let same : is_num v n ≡ (number_of v == n) = num_eq v n (positive_safe-number v h) in
    ground (arith, has_value-number numbers v h)

pub first_number : (numbers : List ℕ) (m n : ℕ) → m ≡ n → has_number (n ∷ numbers) m ≡ true
unfolding has_number
first_number numbers m n e = ground (arith, e)
