-- ===== src/Session/Consistency/Identity.antt =====
-- The worker id that an object stores stays its own: every operation of a `WorkerSession` in
-- `cloudflare-relay/src/index.js` but `ensureIdentity` leaves it.
use bke_worker.Session.Dispatch.{
  dispatch_idle, remember_delivery, put_queued, replace_active, dispatch_remembered, dispatch_wake,
  send_then, dispatch_busy, dispatch, dispatch_same_pr,
}
use bke_worker.Session.Events.{
  other_request, recover_request, dispatch_request, connect_request, serve, connect, route_request,
  fetch, ensure_identity,
}
use bke_worker.Session.Messages.{
  web_socket_error, web_socket_close, binary, Message, register, promote_queued_wake, first_frame,
  later_frame, settle, refuse_unknown, web_socket_message, handle_ack,
}
use bke_worker.Session.Recover.{assigned_to, found, Assignments, recover_with, recover, apply_plan}
use bke_worker.Text.{Text}
use bke_worker.Session.Sockets.{
  clear_connection_if_authoritative, close_socket, send_active_if_safe,
}
use bke_worker.Session.State.{Socket, Session}
use bke_worker.Protocol.Active.{Active}
use bke_worker.Session.Events.{Request, step, message, closed, errored, dropped, drop_socket}
use bke_worker.Protocol.Recovery.{plan_recovery, Plan}
use bke_worker.Js.Value.{Value}
use bke_worker.Text.Equality.{text_eq_refl}
use bke_worker.Protocol.Wake.{read_wake, Wake}
use bke_worker.Session.Reply.{Reply}
use bke_worker.Protocol.Frames.{Ack}
use bke_worker.Session.Recover.{failed}
use bke_worker.Protocol.Patterns.{is_worker_id}
use bke_worker.Session.Messages.{frame}
use bke_worker.Session.Events.Holding.{on_socket_keeps}
use bke_worker.Prelude.{
  ◌∙◌, ap, map, inr, ℕ, inl, Bool-cases, Option-cases, arith, Bool, ◌⊎◌, ◌≡◌, refl, true, none,
  some,
}

pub send_active_if_safe-identity : (s : Session) → (send_active_if_safe s).0.identity ≡ s.identity
unfolding send_active_if_safe
send_active_if_safe-identity s = ground arith

pub send_then-identity :
    (s : Session) (reply : Bool → Reply) → (send_then s reply).0.identity ≡ s.identity
unfolding send_then
send_then-identity s reply = send_active_if_safe-identity s

dispatch_same_pr-identity :
    (s : Session) (act : Active) (w : Wake) → (dispatch_same_pr s act w).0.identity ≡ s.identity
unfolding dispatch_same_pr put_queued replace_active
dispatch_same_pr-identity s act w = grind (arith, send_then-identity)

dispatch_busy-identity :
    (s : Session) (act : Active) (w : Wake) → (dispatch_busy s act w).0.identity ≡ s.identity
unfolding dispatch_busy dispatch_remembered remember_delivery replace_active put_queued
dispatch_busy-identity s act w =
    grind (
      arith,
      send_then-identity,
      dispatch_same_pr-identity (remember_delivery s w.delivery_id) act w,
    )

dispatch-identity :
    (s : Session) (id : Text) (v : Value) → (dispatch s id v).0.identity ≡ s.identity
unfolding dispatch dispatch_wake dispatch_idle put_queued remember_delivery
dispatch-identity s id v = elim (Option-cases s.active) [
  | inl idle ↦ grind (arith, send_then-identity)
  | inr (act, busy) ↦ grind (arith, dispatch_busy-identity s act (read_wake v))
]

apply_plan-identity : (s : Session) (plan : Plan) → (apply_plan s plan).0.identity ≡ s.identity
unfolding apply_plan replace_active put_queued
apply_plan-identity s Plan.conflict = refl
apply_plan-identity s Plan.waiting_for_assignment = refl
apply_plan-identity s (Plan.preserved_active_assignment a p d) = refl
apply_plan-identity s (Plan.head_converged_without_redelivery a w) = refl
apply_plan-identity s (Plan.recovered a w) = send_then-identity _ _

recover-identity :
    (s : Session) (id : Text) (v : Value) (assignments : Assignments)
    → (recover s id v assignments).0.identity ≡ s.identity
unfolding recover recover_with
recover-identity s id v (failed error) = ground arith
recover-identity s id v (found assignments) =
    ground
      (arith, apply_plan-identity s (plan_recovery (map (assigned_to id) assignments) s.active))

route_request-identity :
    (s : Session) (id : Text) (q : Request) → (route_request s id q).0.identity ≡ s.identity
unfolding route_request connect
route_request-identity s id (connect_request c) = ground arith
route_request-identity s id (dispatch_request v) = dispatch-identity s id v
route_request-identity s id (recover_request v assignments) = recover-identity s id v assignments
route_request-identity s id other_request = refl

-- The object of a worker stores that worker's id, or none yet.
abbrev pub IsOwn : Text → Session → Type 0
IsOwn id s = (s.identity ≡ none) ⊎ (s.identity ≡ some id)

pub ensure_identity-own :
    (s : Session) (id : Text)
    → IsOwn id s
    → ensure_identity s id ≡ (record s { identity = some id }, true)
unfolding ensure_identity
ensure_identity-own s id own = grind (arith, text_eq_refl id)

serve_lem : (id : Text) (q : Request) (s : Session) → serve id q (s, true) ≡ route_request s id q
unfolding serve
serve_lem id q s = refl

-- The object of a valid worker serves that worker.
pub fetch-own :
    (s : Session) (id : Text) (q : Request)
    → is_worker_id id ≡ true
    → IsOwn id s
    → fetch s id q ≡ route_request (record s { identity = some id }) id q
unfolding fetch
fetch-own s id q valid own =
    rw valid (ap (serve id q) (ensure_identity-own s id own) ∙ serve_lem id q _)

pub fetch-IsOwn : (s : Session) (id : Text) (q : Request) → IsOwn id s → IsOwn id (fetch s id q).0
unfolding fetch
fetch-IsOwn s id q own = elim (Bool-cases (is_worker_id id)) [
  | inl valid ↦ inr (
      ap (λ (a : Session × Reply). a.0.identity) (fetch-own s id q valid own)
      ∙ route_request-identity (record s { identity = some id }) id q)
  | inr invalid ↦ rw (invalid, fetch) own
]

handle_ack-identity : (s : Session) (ack : Ack) (n : ℕ) → (handle_ack s ack n).identity ≡ s.identity
unfolding handle_ack refuse_unknown close_socket settle promote_queued_wake put_queued
handle_ack-identity s ack n = grind (arith, send_active_if_safe-identity)

pub web_socket_message-identity :
    (s : Session) (socket : Socket) (m : Message)
    → (web_socket_message s socket m).identity ≡ s.identity
unfolding web_socket_message close_socket later_frame first_frame register
web_socket_message-identity s socket binary = refl
web_socket_message-identity s socket (frame v) =
    grind (arith, send_active_if_safe-identity, handle_ack-identity)

-- An event other than a request leaves the stored id.
pub step-identity :
    (s : Session) (n : ℕ) (m : Message)
    → ((step s (message n m)).identity ≡ s.identity)
      × ((step s (closed n)).identity ≡ s.identity)
      × ((step s (errored n)).identity ≡ s.identity)
      × ((step s (dropped n)).identity ≡ s.identity)
unfolding step web_socket_close web_socket_error clear_connection_if_authoritative drop_socket
step-identity s n m =
    let P = λ (t : Session). t.identity ≡ s.identity in
    (
      on_socket_keeps P s n _ refl (λ socket. web_socket_message-identity s socket m),
      on_socket_keeps P s n _ refl (λ socket. ground arith),
      on_socket_keeps P s n _ refl (λ socket. ground arith),
      refl,
    )
