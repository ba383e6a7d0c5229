-- ===== src/Retirement/Membership.antt =====
-- The sockets that a worker's object holds against its stored connection:
-- `readRelaySocketMembershipWitness` of `cloudflare-relay/src/relay-socket-membership-witness.js`.
pub mod Attached
pub mod Sampled
mod Tests
use bke_worker.Retirement.Witness.{
  observed_only, read_relay_retirement_witness, Stored, Observed, Witness,
}
use bke_worker.Js.Value.{null, bool, get, is_undefined, is_text_where, same_value, Value}
use bke_worker.Js.Keys.{exact}
use bke_worker.Text.{text}
use bke_worker.Prelude.{
  ◌==◌, ◌+◌, ltb, [], ◌&&◌, false, true, ◌||◌, inl, not, length, ◌∷◌, inr, leb, ◌⊎◌, if◌then◌else◌,
  Option, List, ℕ, Bool, none, some,
}

-- What the object shows between the first read of the stored connection and the second. A socket is
-- its attachment, or `none` if that cannot be read; the sockets are `none` if they are no array.
pub record Sample : Type 0 where
  pub stored_before : Value
  pub sockets : Option (List (Option Value))
  pub stored_after : Value

pub data Conflict : Type 0 where
  socket_attachment_unreadable socket_attachment_conflict : Conflict
  registered_socket_conflict duplicate_registered_socket : Conflict

-- A result also has the gates of its contract, which are constants.
pub data Membership : Type 0 where
  do_context_required socket_observation_failed : Membership
  baseline_blocked : Witness → Membership
  connection_state_changed connection_metadata_malformed : Membership
  socket_collection_invalid : Membership
  in_conflict : Conflict → Membership
  sampled : Observed → (matched : Bool) → (sample_size : ℕ) → Membership

abbrev pub max_sockets : ℕ
max_sockets = 128

-- A string of 1 to 128 code units
unfoldable pub is_identifier : Value → Bool
is_identifier v = is_text_where (λ t. leb 1 (length t) && leb (length t) 128) v

-- `registered`, `false` if it is no Boolean
unfoldable pub is_registered_attachment : Value → Bool
is_registered_attachment a = same_value (get a (text "registered")) (bool true)

-- The session id goes with the mark of registration.
unfoldable pub has_session : Value → Bool
has_session a =
    if is_registered_attachment a
    then is_identifier (get a (text "sessionId"))
    else same_value (get a (text "registered")) (bool false)
      && same_value (get a (text "sessionId")) null

unfoldable pub is_attachment : Value → Value → Bool
is_attachment expected a =
    exact a (text "workerId" ∷ text "connectionId" ∷ text "registered" ∷ text "sessionId" ∷ [])
    && same_value (get a (text "workerId")) (get expected (text "worker_id"))
    && is_identifier (get a (text "connectionId"))
    && has_session a

-- The loop over the sockets, with the count of matches so far.
unfoldable pub count_matches :
    (expected stored : Value) → (matched : ℕ) → List (Option Value) → Conflict ⊎ ℕ
count_matches expected stored matched [] = inr matched
count_matches expected stored matched (none ∷ rest) = inl socket_attachment_unreadable
count_matches expected stored matched (some a ∷ rest) =
    let later =
      count_matches expected stored (if is_registered_attachment a then matched + 1 else matched)
        rest in
    if not (is_attachment expected a)
    then inl socket_attachment_conflict
    else if not (is_registered_attachment a)
    then later
    else if is_undefined stored || not (same_value (get a (text "connectionId")) stored)
    then inl registered_socket_conflict
    else if ltb 1 (matched + 1)
    then inl duplicate_registered_socket
    else later

-- After the baseline.
unfoldable pub read_sample : Value → Observed → Sample → Membership
read_sample expected baseline sample =
    if (if is_undefined sample.stored_before
        then baseline.active_connection_id_present
        else not baseline.active_connection_id_present)
      || not (same_value sample.stored_before sample.stored_after)
    then connection_state_changed
    else if not (is_undefined sample.stored_before || is_identifier sample.stored_before)
    then connection_metadata_malformed
    else elim sample.sockets [
      | none ↦ socket_collection_invalid
      | some sockets ↦
          if ltb max_sockets (length sockets)
          then socket_collection_invalid
          else elim (count_matches expected sample.stored_before 0 sockets) [
            | inl conflict ↦ in_conflict conflict
            | inr matched ↦ sampled baseline (matched == 1) (length sockets)
          ]
    ]

-- `has_context` says that the dependencies are a storage and a function. The stored values and the
-- sample are `none` where a read throws.
unfoldable pub read_relay_socket_membership_witness :
    (has_context : Bool) → Option Stored → (expected : Value) → Option Sample → Membership
read_relay_socket_membership_witness has_context stored expected sample =
    if not has_context
    then do_context_required
    else elim (read_relay_retirement_witness stored expected) [
      | observed_only baseline ↦ elim sample [
        | none ↦ socket_observation_failed
        | some s ↦ read_sample expected baseline s
      ]
      | other ↦ baseline_blocked other
    ]
