-- ===== src/Protocol/Recovery/Wakes.antt =====
-- The wake that recovery builds for an assignment passes the relay's own validator.
use bke_worker.Prelude.{
  every_join, le→leb, ℕ, true, ◌+◌, ◌^◌, ◌≤◌, ◌<◌, ◌≡◌, refl, [], ◌∷◌, ◌++◌, length, length-append,
  arith, every, every_weaken, ltb,
}
use bke_worker.Text.{Text, text}
use bke_worker.Text.Decimal.{decimal}
use bke_worker.Text.Digits.{every-decimal, length-decimal}
use bke_worker.Protocol.Patterns.{
  is_lower_or_digit, is_worker_unit, is_hex_unit, is_delivery_unit, is_run, is_worker_id, is_sha,
  is_delivery_id, is_reason, is_control_repository,
}
use bke_worker.Protocol.Wake.{IsWake}
use bke_worker.Protocol.Recovery.{Assignment, recovery_delivery_id, recovery_wake}

-- What `normalizeRecoveryAssignments` has checked, with a bound on the number's digits.
pub record IsAssignment (a : Assignment) : Type 0 where
  pub number_positive : ltb 0 a.number ≡ true
  pub number_short : a.number < 10 ^ 14
  pub head_valid : is_sha a.head_sha ≡ true

worker_unit-delivery : (c : ℕ) → is_worker_unit c ≡ true → is_delivery_unit c ≡ true
unfolding is_delivery_unit
worker_unit-delivery c h = ground arith

lower-worker_unit : (c : ℕ) → is_lower_or_digit c ≡ true → is_worker_unit c ≡ true
unfolding is_worker_unit
lower-worker_unit c h = ground arith

hex-delivery : (c : ℕ) → is_hex_unit c ≡ true → is_delivery_unit c ≡ true
unfolding is_delivery_unit is_hex_unit
hex-delivery c h = ground arith

digit-delivery : (d : ℕ) → d < 10 → is_delivery_unit (b'0' + d) ≡ true
unfolding is_delivery_unit
digit-delivery d h = ground arith

-- A worker id is at most 63 units of its class.
worker_id-units :
    (t : Text) → is_worker_id t ≡ true → (every is_worker_unit t ≡ true) × (length t ≤ 63)
unfolding is_worker_id is_run every
worker_id-units [] h = cc
worker_id-units (c ∷ t) h = ground (arith, lower-worker_unit c)

sha-units : (t : Text) → is_sha t ≡ true → (every is_hex_unit t ≡ true) × (length t ≡ 40)
unfolding is_sha is_run
sha-units t h = ground arith

sha-delivery : (t : Text) → is_sha t ≡ true → every is_delivery_unit t ≡ true
sha-delivery t h = every_weaken is_hex_unit is_delivery_unit hex-delivery t (sha-units t h).0

pub worker_id-delivery : (t : Text) → is_worker_id t ≡ true → every is_delivery_unit t ≡ true
worker_id-delivery t h =
    every_weaken is_worker_unit is_delivery_unit worker_unit-delivery t (worker_id-units t h).0

module _ (a : Assignment) (worker : is_worker_id a.worker_id ≡ true) (ok : IsAssignment a) where
  delivery_units : every is_delivery_unit (recovery_delivery_id a) ≡ true
  unfolding recovery_delivery_id every text is_delivery_unit
  delivery_units =
      every_join is_delivery_unit a.worker_id _ (worker_id-delivery a.worker_id worker) (
        every_join is_delivery_unit (decimal a.number) _
          (every-decimal is_delivery_unit digit-delivery a.number)
          (sha-delivery a.head_sha ok.head_valid))

  delivery_length : length (recovery_delivery_id a) ≤ 128
  unfolding recovery_delivery_id text
  delivery_length =
      let number = decimal a.number in
      omega (
        arith,
        length-append a.worker_id (b'-' ∷ (number ++ (b'-' ∷ a.head_sha))),
        length-append number (b'-' ∷ a.head_sha),
        (worker_id-units a.worker_id worker).1,
        (sha-units a.head_sha ok.head_valid).1,
        length-decimal 14 a.number ok.number_short,
      )

  delivery_not_empty : 1 ≤ length (recovery_delivery_id a)
  unfolding recovery_delivery_id text
  delivery_not_empty = omega arith

  recovery_delivery_id_valid : is_delivery_id (recovery_delivery_id a) ≡ true
  unfolding is_delivery_id is_run
  recovery_delivery_id_valid =
      rw (le→leb _ _ delivery_not_empty, le→leb _ _ delivery_length) delivery_units

  -- The wake built for an assignment of a valid worker to a pull request of fewer than 15 digits
  -- has every field in order; its delivery id has at most 128 units.
  pub recovery_wake-IsWake : IsWake (recovery_wake a)
  unfolding recovery_wake is_reason is_control_repository text
  recovery_wake-IsWake = record {
    worker_ok = worker;
    repo_ok = refl;
    number_ok = ok.number_positive;
    head_ok = ok.head_valid;
    reason_ok = refl;
    delivery_ok = recovery_delivery_id_valid;
  }
