-- ===== src/Session/Messages/Authority.antt =====
-- Who may change the work of a session by a frame, and what the end of a socket changes.
use bke_worker.Prelude.{true, false, ◌≡◌, ◌≢◌, some, arith, Option-cases, inl, inr}
use bke_worker.Text.Equality.{text_eq_iff}
use bke_worker.Js.Value.{Value}
use bke_worker.Protocol.Active.{Active}
use bke_worker.Protocol.Frames.{read_ack}
use bke_worker.Session.State.{Session, Socket, Attachment}
use bke_worker.Session.Sockets.{clear_connection_if_authoritative, close_socket}
use bke_worker.Session.Messages.{
  frame, later_frame, handle_ack, refuse_unknown, holds_connection, web_socket_message,
}

-- The stored work of two sessions is the same.
pub record SameWork (s t : Session) : Type 0 where
  pub same_active : t.active ≡ s.active
  pub same_queued : t.queued ≡ s.queued
  pub same_recent : t.recent ≡ s.recent

module _ (s : Session) (a : Attachment) (socket : Socket) (v : Value)
    (attached : socket.attachment ≡ some a) (registered : a.registered ≡ true) where
  -- A text frame on a registered socket whose connection is not the stored one leaves the active
  -- wake, the queued wake and the recent deliveries as they are.
  pub stale_frame-SameWork :
      holds_connection s.connection a ≡ false → SameWork s (web_socket_message s socket (frame v))
  unfolding web_socket_message later_frame close_socket
  stale_frame-SameWork stale = ground arith

  -- A text frame on a registered socket that names no active delivery as its own leaves the active
  -- wake, the queued wake and the recent deliveries as they are, whichever socket sends it.
  pub foreign_ack-SameWork :
      ((act : Active) → s.active ≡ some act → act.wake.delivery_id ≢ (read_ack v).delivery_id)
      → SameWork s (web_socket_message s socket (frame v))
  unfolding web_socket_message later_frame close_socket handle_ack refuse_unknown
  foreign_ack-SameWork foreign = elim (Option-cases s.active) [
    | inl idle ↦ ground arith
    | inr (act, busy) ↦
        ground (arith, foreign act busy, text_eq_iff act.wake.delivery_id (read_ack v).delivery_id)
  ]

-- The end of a socket, by a close or an error, leaves the stored work as it is, sends nothing, and
-- changes no socket.
pub clear_connection-SameWork :
    (s : Session) (socket : Socket)
    → SameWork s (clear_connection_if_authoritative s socket)
      × ((clear_connection_if_authoritative s socket).sockets ≡ s.sockets)
unfolding clear_connection_if_authoritative
clear_connection-SameWork s socket = (ground arith, ground arith)
