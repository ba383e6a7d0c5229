-- ===== src/Session/Messages/Registration.antt =====
-- A browser registers: it gets the wake that waits, and never one that was given out before.
use bke_worker.Session.Sockets.Sending.{send_active_if_safe-deliver, authoritative_socket_named}
use bke_worker.Prelude.{
  ap, ◌≢◌, subst, sym, ℕ, true, false, ◌≡◌, refl, ◌∙◌, List, [], ◌∷◌, map, some, arith, Bool-cases,
  inl, inr, ◌==◌, find_first, All,
}
use bke_worker.Text.{Text}
use bke_worker.Text.Equality.{text_eq_refl}
use bke_worker.Protocol.Wake.{Wake}
use bke_worker.Protocol.Active.{Phase, Active, is_queued}
use bke_worker.Session.State.{Session, Socket, Attachment}
use bke_worker.Session.Sockets.{
  deliver, deliver, push_frame, send_active_if_safe, update_socket, push_close, attach, is_holder,
}
use bke_worker.Session.Messages.{register, close_others}

abbrev pub frames : List Socket → List (List Wake)
frames = map (λ socket. socket.frames)

update_attach-frames :
    (n : ℕ) (a : Attachment) (sockets : List Socket)
    → frames (update_socket n (attach a) sockets) ≡ frames sockets
unfolding update_socket attach
update_attach-frames n a [] = refl
update_attach-frames n a (x ∷ xs) = ground (arith, update_attach-frames n a xs)

close_others-frames :
    (n : ℕ) (sockets : List Socket) → frames (close_others n sockets) ≡ frames sockets
unfolding close_others push_close
close_others-frames n [] = refl
close_others-frames n (x ∷ xs) = ground (arith, close_others-frames n xs)

abbrev pub as_registered : Attachment → Text → Attachment
as_registered a session_id = record a { registered = true; session_id = some session_id }

-- The state in which a registration tries to send.
abbrev pub join : Session → ℕ → Attachment → Text → Session
join s n a session_id = record s {
  connection = some a.connection_id;
  sockets = update_socket n (attach (as_registered a session_id)) (close_others n s.sockets);
}

begun_silent :
    (s : Session) (act : Active)
    → s.active ≡ some act
    → is_queued act.phase ≡ false
    → send_active_if_safe s ≡ (s, false)
unfolding send_active_if_safe
begun_silent s act busy begun = ground arith

-- What was given out is not given out again to a browser that registers: the active wake and its
-- phase stay, and no socket gets a frame.
pub register_begun :
    (s : Session) (n : ℕ) (a : Attachment) (session_id : Text) (act : Active)
    → s.active ≡ some act
    → is_queued act.phase ≡ false
    → ((register s n a session_id).active ≡ some act)
      × (frames (register s n a session_id).sockets ≡ frames s.sockets)
unfolding register
register_begun s n a session_id act busy begun =
    subst (λ r. (r.0.active ≡ some act) × (frames r.0.sockets ≡ frames s.sockets))
      (sym (begun_silent (join s n a session_id) act busy begun))
      (
        busy,
        update_attach-frames n (as_registered a session_id) (close_others n s.sockets)
            ∙ close_others-frames n s.sockets,
      )

-- No other socket holds the connection id.
abbrev pub IsFresh : ℕ → Text → Socket → Type 0
IsFresh n id socket = (socket.handle == n) ≡ false → is_holder id socket ≡ false

module _ (n : ℕ) (a : Attachment) (session_id : Text) where
  holder_found :
      (sockets : List Socket) (socket : Socket)
      → find_first (λ x. x.handle == n) sockets ≡ some socket
      → All (IsFresh n a.connection_id) sockets
      → (found : Socket) × (find_first
            (is_holder a.connection_id)
            (update_socket n (attach (as_registered a session_id)) (close_others n sockets))
          ≡ some found)
        × (found.handle ≡ n)
  unfolding find_first update_socket close_others is_holder attach push_close
  holder_found [] socket e fresh = cc
  holder_found (x ∷ xs) socket e (here, rest) = elim (Bool-cases (x.handle == n)) [
    | inl same ↦ (
      attach (as_registered a session_id) x,
      ground (arith, text_eq_refl a.connection_id),
      ground arith,
    )
    | inr other ↦
        let (found, is_found, handle) = holder_found xs socket (ground arith) rest in
        (found, ground (arith, here other), handle)
  ]

module _ (s : Session) (n : ℕ) (a : Attachment) (session_id : Text) (w : Wake)
    (socket : Socket) where
  holder_sends :
      (found : Socket)
      → s.active ≡ some (record { wake = w; phase = Phase.queued })
      → a.connection_id ≢ []
      → find_first (is_holder a.connection_id) (join s n a session_id).sockets ≡ some found
      → found.handle ≡ n
      → send_active_if_safe (join s n a session_id) ≡ (
        record (join s n a session_id) {
          active = some (record { wake = w; phase = Phase.sent });
          sockets = update_socket n (push_frame w) (join s n a session_id).sockets;
        },
        true,
      )
  unfolding deliver
  holder_sends found waits named is_found handle =
      let joined = join s n a session_id in
      send_active_if_safe-deliver joined w found waits
        (authoritative_socket_named joined a.connection_id refl named ∙ is_found)
      ∙ ap
          (λ k. (
            record joined {
              active = some (record { wake = w; phase = Phase.sent });
              sockets = update_socket k (push_frame w) joined.sockets;
            },
            true,
          ))
          handle

-- A browser that registers with a connection id that no other socket holds gets the wake that
-- waits: one frame on its own socket, and the wake is in the phase `sent`.
pub register_waiting :
    (s : Session) (n : ℕ) (a : Attachment) (session_id : Text) (w : Wake) (socket : Socket)
    → s.active ≡ some (record { wake = w; phase = Phase.queued })
    → find_first (λ x. x.handle == n) s.sockets ≡ some socket
    → a.connection_id ≢ []
    → All (IsFresh n a.connection_id) s.sockets
    → ((register s n a session_id).active ≡ some (record { wake = w; phase = Phase.sent }))
      × ((register s n a session_id).sockets
          ≡ update_socket n (push_frame w) (join s n a session_id).sockets)
unfolding register
register_waiting s n a session_id w socket waits held named fresh =
    let (found, is_found, handle) = holder_found n a session_id s.sockets socket held fresh in
    subst
      (λ r.
        (r.0.active ≡ some (record { wake = w; phase = Phase.sent }))
        × (r.0.sockets ≡ update_socket n (push_frame w) (join s n a session_id).sockets))
      (sym (holder_sends s n a session_id w socket found waits named is_found handle)) (refl, refl)
