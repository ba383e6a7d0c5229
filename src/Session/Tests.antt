-- ===== src/Session/Tests.antt =====
-- The theorems about a session at concrete inputs, and a run of the whole object.
use bke_worker.Prelude.{◌≡◌, ◌≢◌, inr, refl, [], ◌∷◌, some, arith, length, ◌≤◌, map, find_first}
use bke_worker.Text.{text, text_eq}
use bke_worker.Js.Value.{get, text_or_empty}
use bke_worker.Protocol.Active.{Active, Phase, is_queued}
use bke_worker.Protocol.Frames.{read_ack}
use bke_worker.Protocol.Patterns.{is_sha}
use bke_worker.Protocol.Recovery.{Assignment}
use bke_worker.Session.Sockets.{update_socket, push_frame, is_holder}
use bke_worker.Session.Dispatch.{dispatch_wake}
use bke_worker.Session.Dispatch.Sends.{IsReported, dispatch_wake-IsReported}
use bke_worker.Session.Dispatch.InFlight.{dispatch_wake_keeps}
use bke_worker.Session.Recover.{found, recover_with}
use bke_worker.Session.Recover.Reconnect.{
  TakenUp, Undelivered, recover_with_anew, recover_with_begun,
}
use bke_worker.Session.Messages.{frame, register, web_socket_message}
use bke_worker.Session.Messages.Authority.{SameWork, foreign_ack-SameWork}
use bke_worker.Session.Messages.Registration.{join, register_begun, register_waiting}
use bke_worker.Session.Events.{run, new_session}
use bke_worker.Session.Consistency.Work.{HasWork}
use bke_worker.Session.Consistency.Steps.{run-HasWork}
use bke_worker.Session.Consistency.Window.{run-HasRecent}
use bke_worker.Text.Distinct.{IsDistinct}
use bke_worker.Session.Fixtures.{
  worker, wake_of, opened, foreign, ack_frame, assignment, elsewhere, attachment_one,
  unregistered_two, socket_one, socket_two, session_in, a_day,
}

-- The run ends with the second wake sent, over the one socket, after the first.
a_day_ends :
    (run new_session a_day).active
    ≡ some (record {
      wake = wake_of 7 (text "github_pull_request_edited") (text "d4");
      phase = Phase.sent;
    })
unfolding run
a_day_ends = refl

a_day_sends : map (λ socket. length socket.frames) (run new_session a_day).sockets ≡ 2 ∷ []
unfolding run
a_day_sends = refl

run-HasWork_example : HasWork (run new_session a_day)
unfolding is_sha text
run-HasWork_example = run-HasWork a_day (
  tt,
  (
    tt,
    (
      tt,
      (
        tt,
        (
          tt,
          (
            tt,
            (
              (
                record { number_positive = refl; number_short = omega arith; head_valid = refl },
                tt,
              ),
              tt,
            ),
          ),
        ),
      ),
    ),
  ),
)

run-HasRecent_example :
    (length (run new_session a_day).recent ≤ 64) × IsDistinct (run new_session a_day).recent
run-HasRecent_example = run-HasRecent a_day

dispatch_wake-IsReported_example : IsReported opened new_session (dispatch_wake new_session opened)
dispatch_wake-IsReported_example = dispatch_wake-IsReported new_session opened

dispatch_wake_keeps_example :
    ((dispatch_wake (session_in Phase.accepted) foreign).0.active
      ≡ some (record { wake = opened; phase = Phase.accepted }))
    × ((dispatch_wake (session_in Phase.accepted) foreign).0.sockets
        ≡ (session_in Phase.accepted).sockets)
unfolding is_queued text_eq text
dispatch_wake_keeps_example =
    dispatch_wake_keeps (session_in Phase.accepted)
      (record { wake = opened; phase = Phase.accepted }) foreign refl refl refl

register_begun_example :
    ((register (session_in Phase.sent) 2 unregistered_two (text "tab")).active
      ≡ some (record { wake = opened; phase = Phase.sent }))
    × (map
          (λ socket. socket.frames)
          (register (session_in Phase.sent) 2 unregistered_two (text "tab")).sockets
        ≡ [] ∷ [] ∷ [])
unfolding is_queued
register_begun_example =
    register_begun (session_in Phase.sent) 2 unregistered_two (text "tab")
      (record { wake = opened; phase = Phase.sent }) refl refl

register_waiting_example :
    ((register (session_in Phase.queued) 2 unregistered_two (text "tab")).active
      ≡ some (record { wake = opened; phase = Phase.sent }))
    × ((register (session_in Phase.queued) 2 unregistered_two (text "tab")).sockets
        ≡ update_socket 2
            (push_frame opened)
            (join (session_in Phase.queued) 2 unregistered_two (text "tab")).sockets)
unfolding find_first text is_holder text_eq
register_waiting_example =
    register_waiting (session_in Phase.queued) 2 unregistered_two (text "tab") opened socket_two
      refl refl (λ e. cc) ((λ h. refl), ((λ h. cc), tt))

-- The pull request of the active wake, at another head.
abbrev moved : Assignment
moved = record assignment { head_sha = text "89abcdef0123456789abcdef0123456789abcdef" }

number_apart :
    (act : Active)
    → (session_in Phase.accepted).active ≡ some act
    → act.wake.pr_number ≢ elsewhere.number
number_apart act busy = ground arith

recover_with_begun_example :
    Undelivered
      (session_in Phase.deferred)
      worker
      moved
      (record { wake = opened; phase = Phase.deferred })
      (recover_with (session_in Phase.deferred) worker (found (moved ∷ [])))
recover_with_begun_example =
    recover_with_begun (session_in Phase.deferred) worker moved
      (record { wake = opened; phase = Phase.deferred }) refl (λ e. cc) refl

recover_with_anew_example :
    TakenUp
      (session_in Phase.accepted)
      worker
      elsewhere
      (recover_with (session_in Phase.accepted) worker (found (elsewhere ∷ [])))
recover_with_anew_example =
    recover_with_anew (session_in Phase.accepted) worker elsewhere
      (λ act busy. inr (number_apart act busy))

foreign_ack-SameWork_example : SameWork (session_in Phase.sent) (
    web_socket_message
      (session_in Phase.sent)
      socket_one
      (frame (ack_frame (text "d9") (text "completed"))))
unfolding read_ack get text text_or_empty
foreign_ack-SameWork_example =
    foreign_ack-SameWork (session_in Phase.sent) attachment_one socket_one
      (ack_frame (text "d9") (text "completed")) refl refl (λ act busy. ground arith)
