-- ===== src/Session/Consistency/Steps.antt =====
-- Every event, and every run, keeps the work of a session in order.
use bke_worker.Prelude.{List, [], ◌∷◌, All}
use bke_worker.Session.State.{Session}
use bke_worker.Session.Events.{
  Event, fetched, message, closed, errored, dropped, step, run, new_session,
}
use bke_worker.Session.Messages.{web_socket_close, web_socket_error}
use bke_worker.Session.Consistency.Work.{HasWork}
use bke_worker.Session.Events.Holding.{on_socket_keeps}
use bke_worker.Session.Consistency.Frames.{
  web_socket_message-HasWork, clear_connection-HasWork, drop_socket-HasWork,
}
use bke_worker.Session.Consistency.Requests.{IsSoundRequest, fetch-HasWork}

abbrev pub IsSound : Event → Type 0
IsSound (fetched id request) = IsSoundRequest request
IsSound event = Unit

-- Whatever the event, the active and the queued wake stay in order, addressed to the object's
-- worker, and a wake waits only behind one of its own pull request that is no longer waiting. Of
-- GitHub's answer to a recovery it is assumed that its assignments have valid heads, and positive
-- numbers of fewer than 15 digits.
pub step-HasWork : (s : Session) (e : Event) → IsSound e → HasWork s → HasWork (step s e)
unfolding step web_socket_close web_socket_error
step-HasWork s (fetched id request) ok h = fetch-HasWork s id request ok h
step-HasWork s (message n m) ok h =
    on_socket_keeps HasWork s n _ h (λ socket. web_socket_message-HasWork s h socket m)
step-HasWork s (closed n) ok h = on_socket_keeps HasWork s n _ h (clear_connection-HasWork s h)
step-HasWork s (errored n) ok h = on_socket_keeps HasWork s n _ h (clear_connection-HasWork s h)
step-HasWork s (dropped n) ok h = drop_socket-HasWork s h n

run_from-HasWork : (s : Session) (es : List Event) → All IsSound es → HasWork s → HasWork (run s es)
unfolding run
run_from-HasWork s [] ok h = h
run_from-HasWork s (e ∷ es) ok h = run_from-HasWork (step s e) es ok.1 (step-HasWork s e ok.0 h)

-- Every state that a new object reaches has its work in order, if GitHub's answers along the way
-- have valid heads, and positive numbers of fewer than 15 digits.
pub run-HasWork : (es : List Event) → All IsSound es → HasWork (run new_session es)
run-HasWork es ok = run_from-HasWork new_session es ok (record { active_for = tt; queued_for = tt })
