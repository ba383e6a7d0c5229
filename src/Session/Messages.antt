-- ===== src/Session/Messages.antt =====
-- Frames and the end of a socket: `webSocketMessage`, `handleAck`, `promoteQueuedWake`,
-- `webSocketClose` and `webSocketError` of `cloudflare-relay/src/index.js`.
pub mod Authority
pub mod Registration
use bke_worker.Prelude.{
  ℕ, Bool, true, false, not, ◌&&◌, List, [], ◌∷◌, Option, none, some, ◌==◌, if◌then◌else◌,
}
use bke_worker.Text.{Text, text_eq, has_text}
use bke_worker.Js.Value.{Value}
use bke_worker.Protocol.Frames.{
  Ack, AckState, validate_register, validate_ack, read_ack, read_session_id,
}
use bke_worker.Protocol.Active.{Active, Phase}
use bke_worker.Session.State.{Attachment, Socket, Session}
use bke_worker.Session.Sockets.{
  is_registered, update_socket, push_close, attach, close_socket, send_active_if_safe,
  clear_connection_if_authoritative,
}
use bke_worker.Session.Dispatch.{put_queued}

-- A text frame is what `parseJson` makes of it, `null` if it does not parse.
pub data Message : Type 0 where
  binary : Message
  frame : Value → Message

unfoldable pub promote_queued_wake : Session → Session
promote_queued_wake s = elim s.queued [
  | none ↦ s
  | some wake ↦ (send_active_if_safe (put_queued (record s { queued = none }) wake)).0
]

-- The acknowledged delivery is the active one.
unfoldable pub settle : Session → Active → AckState → Session
settle s act AckState.accepted = record s {
  active = some (record { wake = act.wake; phase = Phase.accepted });
}
settle s act AckState.deferred = record s {
  active = some (record { wake = act.wake; phase = Phase.deferred });
}
settle s act AckState.rejected = promote_queued_wake (record s { active = none })
settle s act AckState.completed = promote_queued_wake (record s { active = none })

-- The acknowledged delivery is not the active one.
unfoldable pub refuse_unknown : Session → Ack → ℕ → Session
refuse_unknown s ack handle =
    if has_text s.recent ack.delivery_id then s else close_socket s handle 1008

unfoldable pub handle_ack : Session → Ack → ℕ → Session
handle_ack s ack handle = elim s.active [
  | none ↦ refuse_unknown s ack handle
  | some act ↦
      if text_eq act.wake.delivery_id ack.delivery_id
      then settle s act ack.state
      else refuse_unknown s ack handle
]

-- The loop that closes the other registered sockets.
unfoldable pub close_others : ℕ → List Socket → List Socket
close_others handle [] = []
close_others handle (socket ∷ rest) =
    (if not (socket.handle == handle) && is_registered socket
      then push_close 4001 socket
      else socket)
    ∷ close_others handle rest

unfoldable pub register : Session → ℕ → Attachment → Text → Session
register s handle a session_id =
    (send_active_if_safe (record s {
      connection = some a.connection_id;
      sockets =
          update_socket handle
            (attach (record a { registered = true; session_id = some session_id }))
            (close_others handle s.sockets);
    })).0

-- A frame on a socket that has not registered.
unfoldable pub first_frame : Session → ℕ → Attachment → Value → Session
first_frame s handle a value =
    if validate_register value a.worker_id
    then elim a.connection_id [
      | [] ↦ close_socket s handle 1008
      | c ∷ id ↦ register s handle a (read_session_id value)
    ]
    else close_socket s handle 1008

-- `activeConnectionId && attachment.connectionId === activeConnectionId`
unfoldable pub holds_connection : Option Text → Attachment → Bool
holds_connection none a = false
holds_connection (some []) a = false
holds_connection (some (c ∷ id)) a = text_eq a.connection_id (c ∷ id)

-- A frame on a registered socket.
unfoldable pub later_frame : Session → ℕ → Attachment → Value → Session
later_frame s handle a value =
    if validate_ack value a.worker_id
    then if holds_connection s.connection a
      then handle_ack s (read_ack value) handle
      else close_socket s handle 1008
    else close_socket s handle 1008

-- Without an attachment there is no worker id, and no registration is valid.
unfoldable pub web_socket_message : Session → Socket → Message → Session
web_socket_message s socket binary = close_socket s socket.handle 1003
web_socket_message s socket (frame value) = elim socket.attachment [
  | none ↦ close_socket s socket.handle 1008
  | some a ↦
      if a.registered
      then later_frame s socket.handle a value
      else first_frame s socket.handle a value
]

unfoldable pub web_socket_close : Session → Socket → Session
web_socket_close s socket = clear_connection_if_authoritative s socket

unfoldable pub web_socket_error : Session → Socket → Session
web_socket_error s socket = clear_connection_if_authoritative s socket
