-- ===== src/Session/Consistency/Window.antt =====
-- Only a wake that arrives from the webhook changes the window of recent deliveries.
use bke_worker.Prelude.{
  ◌⊎◌, map, ℕ, Bool, true, false, ◌≡◌, refl, List, [], ◌∷◌, none, arith, Option-cases, inl, inr,
  length, ◌≤◌,
}
use bke_worker.Text.{Text}
use bke_worker.Js.Value.{Value}
use bke_worker.Protocol.Wake.{Wake, read_wake}
use bke_worker.Protocol.Active.{Active}
use bke_worker.Protocol.Frames.{read_ack, read_session_id, Ack, AckState}
use bke_worker.Protocol.Recovery.{plan_recovery, Plan}
use bke_worker.Session.State.{Session, Socket, Attachment}
use bke_worker.Session.Sockets.{
  send_active_if_safe, close_socket, clear_connection_if_authoritative,
}
use bke_worker.Session.Dispatch.{
  put_queued, replace_active, remember_delivery, send_then, dispatch_same_pr, dispatch_remembered,
  dispatch_busy, dispatch_idle, dispatch_wake, dispatch, recent_delivery_limit,
}
use bke_worker.Session.Recover.{
  assigned_to, Assignments, failed, found, apply_plan, recover_with, recover,
}
use bke_worker.Session.Messages.{
  Message, binary, frame, promote_queued_wake, settle, refuse_unknown, handle_ack, register,
  first_frame, later_frame, web_socket_message, web_socket_close, web_socket_error,
}
use bke_worker.Session.Events.{
  Request, connect_request, dispatch_request, recover_request, other_request, connect,
  ensure_identity, route_request, serve, fetch, Event, fetched, message, closed, errored, dropped,
  drop_socket, step, run, new_session,
}
use bke_worker.Session.Events.Holding.{on_socket_keeps}
use bke_worker.Session.Consistency.Recent.{HasRecent, HasRecent-same, remember_delivery-HasRecent}
use bke_worker.Text.Distinct.{IsDistinct}

pub send_active_if_safe-recent : (s : Session) → (send_active_if_safe s).0.recent ≡ s.recent
unfolding send_active_if_safe
send_active_if_safe-recent s = ground arith

-- The reply does not touch the state.
dispatch_same_pr-recent :
    (s : Session) (act : Active) (w : Wake) → (dispatch_same_pr s act w).0.recent ≡ s.recent
unfolding dispatch_same_pr send_then replace_active put_queued
dispatch_same_pr-recent s act w = ground (arith, send_active_if_safe-recent (replace_active s w))

pub dispatch_remembered-recent :
    (s : Session) (act : Active) (w : Wake) → (dispatch_remembered s act w).0.recent ≡ s.recent
unfolding dispatch_remembered send_then replace_active put_queued
dispatch_remembered-recent s act w =
    ground (arith, send_active_if_safe-recent (replace_active s w), dispatch_same_pr-recent s act w)

module _ (s : Session) (w : Wake) where
  abbrev KeepsOrAdds : Session → Type 0
  KeepsOrAdds t = (t.recent ≡ s.recent) ⊎ (t.recent ≡ (remember_delivery s w.delivery_id).recent)

  dispatch_busy-recent : (act : Active) → KeepsOrAdds (dispatch_busy s act w).0
  unfolding dispatch_busy
  dispatch_busy-recent act =
      ground (arith, dispatch_remembered-recent (remember_delivery s w.delivery_id) act w)

  dispatch_idle-recent : KeepsOrAdds (dispatch_idle s w).0
  unfolding dispatch_idle send_then put_queued
  dispatch_idle-recent =
      ground (arith, send_active_if_safe-recent (put_queued (remember_delivery s w.delivery_id) w))

  dispatch_wake-recent : KeepsOrAdds (dispatch_wake s w).0
  unfolding dispatch_wake
  dispatch_wake-recent = elim (Option-cases s.active) [
    | inl idle ↦ ground (arith, dispatch_idle-recent)
    | inr (act, busy) ↦ ground (arith, dispatch_busy-recent act)
  ]

  dispatch_wake-HasRecent : HasRecent s → HasRecent (dispatch_wake s w).0
  dispatch_wake-HasRecent h = elim dispatch_wake-recent [
    | inl same ↦ HasRecent-same same h
    | inr adds ↦ HasRecent-same adds (remember_delivery-HasRecent s w.delivery_id h)
  ]

apply_plan-recent : (s : Session) (plan : Plan) → (apply_plan s plan).0.recent ≡ s.recent
unfolding apply_plan send_then replace_active put_queued
apply_plan-recent s (Plan.recovered a w) = send_active_if_safe-recent (replace_active s w)
apply_plan-recent s plan = refl

pub recover-recent :
    (s : Session) (id : Text) (value : Value) (assignments : Assignments)
    → (recover s id value assignments).0.recent ≡ s.recent
unfolding recover recover_with
recover-recent s id value (failed error) = ground arith
recover-recent s id value (found assignments) =
    ground (arith, apply_plan-recent s (plan_recovery (map (assigned_to id) assignments) s.active))

promote_queued_wake-recent : (s : Session) → (promote_queued_wake s).recent ≡ s.recent
unfolding promote_queued_wake put_queued
promote_queued_wake-recent s = elim (Option-cases s.queued) [
  | inl empty ↦ ground arith
  | inr (w, waits) ↦
      ground (arith, send_active_if_safe-recent (put_queued (record s { queued = none }) w))
]

settle-recent :
    (s : Session) (act : Active) (state : AckState) → (settle s act state).recent ≡ s.recent
unfolding settle
settle-recent s act AckState.accepted = refl
settle-recent s act AckState.deferred = refl
settle-recent s act AckState.rejected = promote_queued_wake-recent _
settle-recent s act AckState.completed = promote_queued_wake-recent _

handle_ack-recent : (s : Session) (ack : Ack) (n : ℕ) → (handle_ack s ack n).recent ≡ s.recent
unfolding handle_ack refuse_unknown close_socket
handle_ack-recent s ack n = elim (Option-cases s.active) [
  | inl idle ↦ ground arith
  | inr (act, busy) ↦ ground (arith, settle-recent s act ack.state)
]

register-recent :
    (s : Session) (n : ℕ) (a : Attachment) (id : Text) → (register s n a id).recent ≡ s.recent
unfolding register
register-recent s n a id = send_active_if_safe-recent _

web_socket_message-recent :
    (s : Session) (socket : Socket) (m : Message)
    → (web_socket_message s socket m).recent ≡ s.recent
unfolding web_socket_message first_frame later_frame close_socket
web_socket_message-recent s socket binary = refl
web_socket_message-recent s socket (frame v) = elim (Option-cases socket.attachment) [
  | inl missing ↦ ground arith
  | inr (a, there) ↦ ground (
    arith,
    register-recent s socket.handle a (read_session_id v),
    handle_ack-recent s (read_ack v) socket.handle,
  )
]

route_request-HasRecent :
    (s : Session) (id : Text) (request : Request)
    → HasRecent s
    → HasRecent (route_request s id request).0
unfolding route_request connect dispatch
route_request-HasRecent s id (connect_request c) h = ground arith
route_request-HasRecent s id (dispatch_request value) h =
    ground (arith, dispatch_wake-HasRecent s (read_wake value) h)
route_request-HasRecent s id (recover_request value assignments) h =
    HasRecent-same (recover-recent s id value assignments) h
route_request-HasRecent s id other_request h = h

serve-HasRecent :
    (id : Text) (request : Request) (r : Session × Bool)
    → HasRecent r.0
    → HasRecent (serve id request r).0
unfolding serve
serve-HasRecent id request (s, true) h = route_request-HasRecent s id request h
serve-HasRecent id request (s, false) h = h

ensure_identity-recent : (s : Session) (id : Text) → (ensure_identity s id).0.recent ≡ s.recent
unfolding ensure_identity
ensure_identity-recent s id = ground arith

fetch-HasRecent :
    (s : Session) (id : Text) (request : Request) → HasRecent s → HasRecent (fetch s id request).0
unfolding fetch
fetch-HasRecent s id request h = ground (
  arith,
  serve-HasRecent id request (ensure_identity s id)
      (HasRecent-same (ensure_identity-recent s id) h),
)

clear_connection-recent :
    (s : Session) (socket : Socket) → (clear_connection_if_authoritative s socket).recent ≡ s.recent
unfolding clear_connection_if_authoritative
clear_connection-recent s socket = ground arith

pub step-HasRecent : (s : Session) (e : Event) → HasRecent s → HasRecent (step s e)
unfolding step web_socket_close web_socket_error drop_socket
step-HasRecent s (fetched id request) h = fetch-HasRecent s id request h
step-HasRecent s (message n m) h =
    on_socket_keeps HasRecent s n _ h
      (λ socket. HasRecent-same (web_socket_message-recent s socket m) h)
step-HasRecent s (closed n) h =
    on_socket_keeps HasRecent s n _ h
      (λ socket. HasRecent-same (clear_connection-recent s socket) h)
step-HasRecent s (errored n) h =
    on_socket_keeps HasRecent s n _ h
      (λ socket. HasRecent-same (clear_connection-recent s socket) h)
step-HasRecent s (dropped n) h = HasRecent-same refl h

run_from-HasRecent : (s : Session) (es : List Event) → HasRecent s → HasRecent (run s es)
unfolding run
run_from-HasRecent s [] h = h
run_from-HasRecent s (e ∷ es) h = run_from-HasRecent (step s e) es (step-HasRecent s e h)

-- Whatever happens to a new object, its window of recent deliveries has at most 64 entries, and no
-- delivery twice.
pub run-HasRecent :
    (es : List Event)
    → (length (run new_session es).recent ≤ recent_delivery_limit)
      × IsDistinct (run new_session es).recent
run-HasRecent es =
    let h = run_from-HasRecent new_session es (record { bounded = omega arith; distinct = tt }) in
    (h.bounded, h.distinct)
