-- ===== src/Protocol/Frames.antt =====
-- The frames that a browser worker sends: `validateRegister`, `validateRecoveryRequest` and
-- `validateAck` of `cloudflare-relay/src/protocol.js`.
use bke_worker.Prelude.{ℕ, Bool, ◌&&◌, List, [], ◌∷◌, leb, length, if◌then◌else◌}
use bke_worker.Js.Value.{Value, get, is_num, is_text, is_text_where, text_or_empty}
use bke_worker.Js.Keys.{exact_keys}
use bke_worker.Text.{Text, text, text_eq, has_text}
use bke_worker.Protocol.Patterns.{protocol_version, is_valid_worker_id, is_valid_delivery_id}

abbrev in_length_range : ℕ → ℕ → Text → Bool
in_length_range low high t = leb low (length t) && leb (length t) high

unfoldable pub validate_register : Value → Text → Bool
unfolding is_valid_worker_id
validate_register v expected_worker_id =
    exact_keys v (text "protocol" ∷ text "type" ∷ text "worker_id" ∷ text "session_id" ∷ [])
    && is_num (get v (text "protocol")) protocol_version
    && is_text (get v (text "type")) (text "register")
    && is_text (get v (text "worker_id")) expected_worker_id
    && is_valid_worker_id (get v (text "worker_id"))
    && is_text_where (in_length_range 1 128) (get v (text "session_id"))

unfoldable pub validate_recovery_request : Value → Text → Bool
unfolding is_valid_worker_id
validate_recovery_request v expected_worker_id =
    exact_keys v (text "protocol" ∷ text "type" ∷ text "worker_id" ∷ [])
    && is_num (get v (text "protocol")) protocol_version
    && is_text (get v (text "type")) (text "recover")
    && is_text (get v (text "worker_id")) expected_worker_id
    && is_valid_worker_id (get v (text "worker_id"))

-- ACK_STATES
pub data AckState : Type 0 where
  accepted deferred rejected completed : AckState

abbrev pub ack_states : List Text
ack_states = text "accepted" ∷ text "deferred" ∷ text "rejected" ∷ text "completed" ∷ []

unfoldable pub validate_ack : Value → Text → Bool
unfolding is_valid_worker_id is_valid_delivery_id
validate_ack v expected_worker_id =
    exact_keys v
      (text "protocol" ∷ text "type" ∷ text "worker_id" ∷ text "delivery_id" ∷ text "state" ∷ [])
    && is_num (get v (text "protocol")) protocol_version
    && is_text (get v (text "type")) (text "ack")
    && is_text (get v (text "worker_id")) expected_worker_id
    && is_valid_worker_id (get v (text "worker_id"))
    && is_valid_delivery_id (get v (text "delivery_id"))
    && is_text_where (has_text ack_states) (get v (text "state"))

pub record Ack : Type 0 where
  pub delivery_id : Text
  pub state : AckState

-- The state that a validated string names.
unfoldable pub read_ack_state : Text → AckState
unfolding text_eq
read_ack_state t =
    if text_eq t (text "accepted")
    then accepted
    else if text_eq t (text "deferred")
    then deferred
    else if text_eq t (text "rejected")
    then rejected
    else completed

-- The fields that the session reads of a validated acknowledgement.
unfoldable pub read_ack : Value → Ack
unfolding read_ack_state
read_ack v = record {
  delivery_id = text_or_empty (get v (text "delivery_id"));
  state = read_ack_state (text_or_empty (get v (text "state")));
}

-- The session id of a validated registration.
unfoldable pub read_session_id : Value → Text
read_session_id v = text_or_empty (get v (text "session_id"))
