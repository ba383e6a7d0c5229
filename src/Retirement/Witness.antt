-- ===== src/Retirement/Witness.antt =====
-- What a worker's stored state says of its retirement: `relay-retirement-witness.js` of
-- `cloudflare-relay/src`. A key that is missing holds `undefined`.
use bke_worker.Prelude.{
  ◌==◌, every, ◌∷◌, leb, length, ◌&&◌, Bool, not, List, Option, ℕ, true, false, [], none, some,
  if◌then◌else◌,
}
use bke_worker.Text.{has_text, text_eq, text, Text}
use bke_worker.Protocol.Wake.{validate_wake}
use bke_worker.Js.Keys.{exact}
use bke_worker.Retirement.Fence.{validate_retirement_target}
use bke_worker.Protocol.Patterns.{is_valid_delivery_id}
use bke_worker.Js.Value.{
  number_of, is_text_where, items, elements, same_value, get, text_or_empty, is_undefined, Value,
  undefined, str, arr,
}

-- The storage of a WorkerSession with the two keys of a retirement.
pub record Stored : Type 0 where
  pub worker_id : Value
  pub active_wake : Value
  pub queued_wake : Value
  pub active_connection_id : Value
  pub recent_deliveries : Value
  pub fence : Value
  pub epoch : Value

abbrev pub phases : List Text
phases =
    text "queued" ∷ text "sent" ∷ text "deferred" ∷ text "accepted" ∷ text "recovery_required" ∷ []

abbrev pub max_recent : ℕ
max_recent = 64

pub record Summary : Type 0 where
  pub delivery_id : Text
  pub repo : Text
  pub pr_number : ℕ
  pub expected_head_sha : Text

-- A result has the target that was asked for, and the active wake its phase; nobody reads them.
pub record Observed : Type 0 where
  pub active : Option Summary
  pub queued : Option Summary
  pub active_connection_id_present : Bool
  pub recent_delivery_count : ℕ

pub data Witness : Type 0 where
  expected_context_invalid storage_read_failed identity_mismatch_or_missing : Witness
  connection_metadata_malformed recent_deliveries_malformed : Witness
  active_phase_malformed active_wake_malformed queued_wake_malformed : Witness
  wake_context_mismatch : Witness
  observed_only : Observed → Witness

unfoldable pub describe_wake : Value → Text → Option Summary
describe_wake value worker_id =
    if validate_wake value (some worker_id)
    then some (record {
      delivery_id = text_or_empty (get value (text "delivery_id"));
      repo = text_or_empty (get value (text "repo"));
      pr_number = number_of (get value (text "pr_number"));
      expected_head_sha = text_or_empty (get value (text "expected_head_sha"));
    })
    else none

-- `registered !== undefined && (typeof registered !== "string" || !registered)` fails
unfoldable pub is_connection : Value → Bool
is_connection undefined = true
is_connection (str s) = not (text_eq s [])
is_connection v = false

-- At most 64 delivery ids, or nothing stored
unfoldable pub is_recent : Value → Bool
is_recent undefined = true
is_recent (arr vs) = leb (length (items vs)) max_recent && every is_valid_delivery_id (items vs)
is_recent v = false

-- The summary, if there is one, is of a wake for the expected pull request and head.
unfoldable pub is_in_context : Value → Option Summary → Bool
is_in_context expected none = true
is_in_context expected (some wake) =
    text_eq wake.repo (text_or_empty (get expected (text "repo")))
    && wake.pr_number == number_of (get expected (text "pr_number"))
    && text_eq wake.expected_head_sha (text_or_empty (get expected (text "expected_head_sha")))

-- After the two wakes are read.
unfoldable pub observe : Stored → Value → (active queued : Option Summary) → Witness
observe s expected active queued =
    if is_in_context expected active && is_in_context expected queued
    then observed_only (record {
      active = active;
      queued = queued;
      active_connection_id_present = not (is_undefined s.active_connection_id);
      recent_delivery_count = length (elements s.recent_deliveries);
    })
    else wake_context_mismatch

-- From the queued wake on.
unfoldable pub read_queued : Stored → Value → (active : Option Summary) → Witness
read_queued s expected active =
    if is_undefined s.queued_wake
    then observe s expected active none
    else elim (describe_wake s.queued_wake (text_or_empty (get expected (text "worker_id")))) [
      | none ↦ queued_wake_malformed
      | some queued ↦ observe s expected active (some queued)
    ]

-- From the active wake on.
unfoldable pub read_active : Stored → Value → Witness
read_active s expected =
    if is_undefined s.active_wake
    then read_queued s expected none
    else if not (
        exact s.active_wake (text "wake" ∷ text "phase" ∷ [])
        && is_text_where (has_text phases) (get s.active_wake (text "phase")))
    then active_phase_malformed
    else elim (describe_wake (get s.active_wake (text "wake"))
        (text_or_empty (get expected (text "worker_id")))) [
          | none ↦ active_wake_malformed
          | some active ↦ read_queued s expected (some active)
        ]

-- The stored values are `none` if a read fails.
unfoldable pub read_relay_retirement_witness : Option Stored → Value → Witness
read_relay_retirement_witness stored expected =
    if not (validate_retirement_target expected) then expected_context_invalid else elim stored [
      | none ↦ storage_read_failed
      | some s ↦
          if not (same_value s.worker_id (get expected (text "worker_id")))
          then identity_mismatch_or_missing
          else if not (is_connection s.active_connection_id)
          then connection_metadata_malformed
          else if not (is_recent s.recent_deliveries)
          then recent_deliveries_malformed
          else read_active s expected
    ]
