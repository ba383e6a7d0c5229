-- ===== src/Session/Sockets/Sending.antt =====
-- The one way in which a session sends.
use bke_worker.Prelude.{
  refl, [], ◌∷◌, ◌≢◌, find_first, true, false, ◌≡◌, some, arith, Option-cases, inl, inr,
}
use bke_worker.Text.{Text}
use bke_worker.Protocol.Wake.{Wake}
use bke_worker.Protocol.Active.{is_queued, Phase}
use bke_worker.Session.State.{Session, Socket}
use bke_worker.Session.Sockets.{
  is_holder, deliver, authoritative_socket, send_active_if_safe, update_socket, push_frame,
}

-- From `s` to `t` the wake `w` was put on the authoritative socket, once, and is now in the phase
-- `sent`; the other sockets are as before.
pub record Sends (w : Wake) (s t : Session) : Type 0 where
  pub socket : Socket
  pub authoritative : authoritative_socket s ≡ some socket
  pub delivered : t.sockets ≡ update_socket socket.handle (push_frame w) s.sockets
  pub marked : t.active ≡ some (record { wake = w; phase = Phase.sent })

pub send_active_if_safe-silent :
    (s : Session) → (send_active_if_safe s).1 ≡ false → (send_active_if_safe s).0 ≡ s
unfolding send_active_if_safe
send_active_if_safe-silent s h = ground arith

pub send_active_if_safe-Sends :
    (s : Session) (w : Wake)
    → s.active ≡ some (record { wake = w; phase = Phase.queued })
    → (send_active_if_safe s).1 ≡ true
    → Sends w s (send_active_if_safe s).0
unfolding send_active_if_safe deliver
send_active_if_safe-Sends s w e h = elim (Option-cases (authoritative_socket s)) [
  | inl nobody ↦ absurd (ground arith)
  | inr (socket, there) ↦ record {
    socket = socket;
    authoritative = there;
    delivered = ground arith;
    marked = ground arith;
  }
]

pub authoritative_socket_named :
    (s : Session) (id : Text)
    → s.connection ≡ some id
    → id ≢ []
    → authoritative_socket s ≡ find_first (is_holder id) s.sockets
unfolding authoritative_socket
authoritative_socket_named s [] e named = absurd (named refl)
authoritative_socket_named s (c ∷ id) e named = rw (e, authoritative_socket)

pub send_active_if_safe-deliver :
    (s : Session) (w : Wake) (socket : Socket)
    → s.active ≡ some (record { wake = w; phase = Phase.queued })
    → authoritative_socket s ≡ some socket
    → send_active_if_safe s ≡ (deliver s (record { wake = w; phase = Phase.queued }) socket, true)
unfolding send_active_if_safe is_queued
send_active_if_safe-deliver s w socket waits there = ground arith
