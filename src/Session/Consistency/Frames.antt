-- ===== src/Session/Consistency/Frames.antt =====
-- Frames, registrations and the end of a socket keep the work of a session in order.
use bke_worker.Prelude.{ℕ, ◌≡◌, refl, none, some, arith, Option-cases, inl, inr}
use bke_worker.Text.{Text}
use bke_worker.Js.Value.{Value}
use bke_worker.Protocol.Active.{Active, is_queued}
use bke_worker.Protocol.Frames.{read_session_id, Ack, AckState, read_ack}
use bke_worker.Protocol.Wake.{Wake}
use bke_worker.Session.State.{Session, Socket, Attachment}
use bke_worker.Session.Sockets.{close_socket, clear_connection_if_authoritative}
use bke_worker.Session.Dispatch.{put_queued}
use bke_worker.Session.Messages.{
  Message, binary, frame, promote_queued_wake, settle, refuse_unknown, handle_ack, register,
  first_frame, later_frame, web_socket_message,
}
use bke_worker.Session.Events.{drop_socket}
use bke_worker.Session.Consistency.Work.{
  put_queued-HasWork, IsFor, HasWork, send_active_if_safe-HasWork,
}

close_socket-HasWork : (s : Session) (n code : ℕ) → HasWork s → HasWork (close_socket s n code)
unfolding close_socket
close_socket-HasWork s n code h = record { active_for = h.active_for; queued_for = h.queued_for }

waiting-IsFor : (s : Session) (w : Wake) → HasWork s → s.queued ≡ some w → IsFor s.identity w
waiting-IsFor s w h waits = elim (Option-cases s.active) [
  | inl idle ↦ ground arith
  | inr (act, busy) ↦ ground arith
]

promoted :
    (s : Session) (w : Wake)
    → HasWork s
    → s.queued ≡ some w
    → HasWork (put_queued (record s { active = none; queued = none }) w)
promoted s w h waits = put_queued-HasWork _ w refl (waiting-IsFor s w h waits)

-- The queued wake takes the place of an active wake that is done.
promote_done-HasWork :
    (s : Session) → HasWork s → HasWork (promote_queued_wake (record s { active = none }))
unfolding promote_queued_wake
promote_done-HasWork s h = elim (Option-cases s.queued) [
  | inl empty ↦ ground arith
  | inr (w, waits) ↦ ground (
    arith,
    send_active_if_safe-HasWork (put_queued (record s { active = none; queued = none }) w)
        (promoted s w h waits),
  )
]

module _ (s : Session) (h : HasWork s) where
  settle-HasWork :
      (act : Active) (state : AckState) → s.active ≡ some act → HasWork (settle s act state)
  unfolding settle is_queued
  settle-HasWork act AckState.accepted e = ground arith
  settle-HasWork act AckState.deferred e = ground arith
  settle-HasWork act AckState.rejected e = promote_done-HasWork s h
  settle-HasWork act AckState.completed e = promote_done-HasWork s h

  refuse_unknown-HasWork : (ack : Ack) (n : ℕ) → HasWork (refuse_unknown s ack n)
  unfolding refuse_unknown
  refuse_unknown-HasWork ack n = ground (arith, close_socket-HasWork s n 1008 h)

  handle_ack-HasWork : (ack : Ack) (n : ℕ) → HasWork (handle_ack s ack n)
  unfolding handle_ack
  handle_ack-HasWork ack n = elim (Option-cases s.active) [
    | inl idle ↦ ground (arith, refuse_unknown-HasWork ack n)
    | inr (act, busy) ↦
        ground (arith, refuse_unknown-HasWork ack n, settle-HasWork act ack.state busy)
  ]

  register-HasWork : (n : ℕ) (a : Attachment) (id : Text) → HasWork (register s n a id)
  unfolding register
  register-HasWork n a id =
      send_active_if_safe-HasWork _
        (record { active_for = h.active_for; queued_for = h.queued_for })

  first_frame-HasWork : (n : ℕ) (a : Attachment) (v : Value) → HasWork (first_frame s n a v)
  unfolding first_frame
  first_frame-HasWork n a v =
      ground (arith, close_socket-HasWork s n 1008 h, register-HasWork n a (read_session_id v))

  later_frame-HasWork : (n : ℕ) (a : Attachment) (v : Value) → HasWork (later_frame s n a v)
  unfolding later_frame
  later_frame-HasWork n a v =
      ground (arith, close_socket-HasWork s n 1008 h, handle_ack-HasWork (read_ack v) n)

  pub web_socket_message-HasWork :
      (socket : Socket) (m : Message) → HasWork (web_socket_message s socket m)
  unfolding web_socket_message
  web_socket_message-HasWork socket binary = close_socket-HasWork s socket.handle 1003 h
  web_socket_message-HasWork socket (frame v) = elim (Option-cases socket.attachment) [
    | inl missing ↦ ground (arith, close_socket-HasWork s socket.handle 1008 h)
    | inr (a, there) ↦
        ground (arith, first_frame-HasWork socket.handle a v, later_frame-HasWork socket.handle a v)
  ]

  pub clear_connection-HasWork :
      (socket : Socket) → HasWork (clear_connection_if_authoritative s socket)
  unfolding clear_connection_if_authoritative
  clear_connection-HasWork socket = ground arith

  pub drop_socket-HasWork : (n : ℕ) → HasWork (drop_socket s n)
  unfolding drop_socket
  drop_socket-HasWork n = record { active_for = h.active_for; queued_for = h.queued_for }
