-- ===== src/Session/Sockets.antt =====
-- The sockets of a session and the one send: `authoritativeSocket`, `sendActiveIfSafe`,
-- `clearConnectionIfAuthoritative` and the writes to sockets of `cloudflare-relay/src/index.js`.
pub mod Sending
use bke_worker.Prelude.{
  ℕ, Bool, true, false, ◌&&◌, List, [], ◌∷◌, ◌++◌, Option, none, some, ◌==◌, if◌then◌else◌,
  find_first,
}
use bke_worker.Text.{Text, text_eq}
use bke_worker.Protocol.Wake.{Wake}
use bke_worker.Protocol.Active.{Active, is_queued, sent}
use bke_worker.Session.State.{Attachment, Socket, Session}

-- `attachment?.registered === true`
unfoldable pub is_registered : Socket → Bool
is_registered socket = elim socket.attachment [ none ↦ false | some a ↦ a.registered ]

-- `attachment?.registered === true && attachment?.connectionId === id`
unfoldable pub is_holder : Text → Socket → Bool
is_holder id socket = elim socket.attachment [
  | none ↦ false
  | some a ↦ a.registered && text_eq a.connection_id id
]

-- A write to the socket object `handle`; the others stay.
unfoldable pub update_socket : ℕ → (Socket → Socket) → List Socket → List Socket
update_socket handle f [] = []
update_socket handle f (socket ∷ rest) =
    (if socket.handle == handle then f socket else socket) ∷ update_socket handle f rest

-- `socket.send(JSON.stringify(wake))`
unfoldable pub push_frame : Wake → Socket → Socket
push_frame wake socket = record socket { frames = socket.frames ++ wake ∷ [] }

-- `socket.close(code, …)`
unfoldable pub push_close : ℕ → Socket → Socket
push_close code socket = record socket { closed = socket.closed ++ code ∷ [] }

-- `socket.serializeAttachment(a)`
unfoldable pub attach : Attachment → Socket → Socket
attach a socket = record socket { attachment = some a }

unfoldable pub close_socket : Session → ℕ → ℕ → Session
close_socket s handle code = record s { sockets = update_socket handle (push_close code) s.sockets }

-- A stored connection id that is missing or empty names no socket.
unfoldable pub authoritative_socket : Session → Option Socket
authoritative_socket s = elim s.connection [
  | none ↦ none
  | some [] ↦ none
  | some (c ∷ id) ↦ find_first (is_holder (c ∷ id)) s.sockets
]

-- Sends the wake over `socket`, then stores the phase.
unfoldable pub deliver : Session → Active → Socket → Session
deliver s act socket = record s {
  sockets = update_socket socket.handle (push_frame act.wake) s.sockets;
  active = some (record { wake = act.wake; phase = sent });
}

-- The state after, and whether the wake was sent.
unfoldable pub send_active_if_safe : Session → Session × Bool
unfolding authoritative_socket deliver
send_active_if_safe s = elim s.active [
  | none ↦ (s, false)
  | some act ↦
      if is_queued act.phase
      then elim (authoritative_socket s) [
        | none ↦ (s, false)
        | some socket ↦ (deliver s act socket, true)
      ]
      else (s, false)
]

-- `attachment.connectionId`, `undefined` without an attachment
unfoldable pub connection_of : Socket → Option Text
connection_of socket = elim socket.attachment [ none ↦ none | some a ↦ some a.connection_id ]

-- `attachment.connectionId === activeConnectionId`
unfoldable pub same_connection : Option Text → Option Text → Bool
same_connection none none = true
same_connection none (some d) = false
same_connection (some c) none = false
same_connection (some c) (some d) = text_eq c d

unfoldable pub clear_connection_if_authoritative : Session → Socket → Session
unfolding same_connection connection_of
clear_connection_if_authoritative s socket =
    if same_connection (connection_of socket) s.connection
    then record s { connection = none }
    else s
