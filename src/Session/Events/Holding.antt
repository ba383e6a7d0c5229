-- ===== src/Session/Events/Holding.antt =====
-- A socket's event reaches the handler only for a socket that the runtime holds.
use bke_worker.Prelude.{ℕ, inl, inr, ◌==◌, Option-cases, find_first}
use bke_worker.Session.State.{Session, Socket}
use bke_worker.Session.Events.{on_socket}

-- What holds before the event and after the handler holds after the event.
pub on_socket_keeps {ℓ} :
    (P : Session → Type ℓ) (s : Session) (n : ℕ) (handler : Socket → Session)
    → P s
    → ((socket : Socket) → P (handler socket))
    → P (on_socket s n handler)
unfolding on_socket
on_socket_keeps P s n handler before after =
    elim (Option-cases (find_first (λ socket. socket.handle == n) s.sockets)) [
      | inl missing ↦ rw (missing, on_socket) before
      | inr (socket, there) ↦ rw (there, on_socket) (after socket)
    ]
