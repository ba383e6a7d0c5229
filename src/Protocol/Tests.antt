-- ===== src/Protocol/Tests.antt =====
-- The theorems about the protocol at concrete inputs.
use bke_worker.Prelude.{true, ◌≡◌, ◌↔◌, refl, some, arith}
use bke_worker.Text.{text}
use bke_worker.Js.Value.{get, is_num, is_text, is_text_where, is_positive_integer}
use bke_worker.Js.Keys.{exact_keys}
use bke_worker.Protocol.Patterns.{
  is_control_repository, is_sha, is_reason, is_worker_id, is_valid_worker_id, is_valid_delivery_id,
}
use bke_worker.Protocol.Wake.{IsWake, wake_value, read_wake, validate_wake}
use bke_worker.Protocol.Wake.Reading.{same_read, validate_wake-wake_value}
use bke_worker.Protocol.Recovery.{recovery_wake}
use bke_worker.Protocol.Recovery.Wakes.{recovery_wake-IsWake}
use bke_worker.Session.Fixtures.{worker, opened, assignment}

opened_accepted : validate_wake (wake_value opened) (some worker) ≡ true
unfolding validate_wake wake_value exact_keys get text is_num is_text is_text_where
    is_positive_integer is_control_repository is_sha is_reason is_valid_worker_id
    is_valid_delivery_id
opened_accepted = refl

validate_wake-wake_value_example :
    (validate_wake (wake_value opened) (some worker) ≡ true) ↔ (IsWake opened × (worker ≡ worker))
validate_wake-wake_value_example = validate_wake-wake_value opened worker

same_read_example :
    get (wake_value opened) (text "repo")
    ≡ get (wake_value (read_wake (wake_value opened))) (text "repo")
same_read_example = same_read (wake_value opened) (some worker) opened_accepted (text "repo")

recovery_wake-IsWake_example : IsWake (recovery_wake assignment)
unfolding is_sha is_worker_id text
recovery_wake-IsWake_example =
    recovery_wake-IsWake assignment refl
      (record { number_positive = refl; number_short = omega arith; head_valid = refl })
