-- ===== src/Session/Recover/Reconnect.antt =====
-- What a recovery request does to the work that the object has: `recover` of
-- `cloudflare-relay/src/index.js` with `planRecovery` of `cloudflare-relay/src/protocol.js`.
use bke_worker.Prelude.{
  ◌≢◌, ◌⊎◌, ◌++◌, Bool, false, true, ◌≡◌, refl, List, ◌∷◌, [], none, some, arith, Bool-cases,
  Option-cases, inl, inr,
}
use bke_worker.Text.{Text, text, text_eq}
use bke_worker.Text.Decimal.{decimal}
use bke_worker.Text.Equality.{text_eq_iff}
use bke_worker.Protocol.Wake.{Wake}
use bke_worker.Protocol.Active.{Active, Phase, is_queued}
use bke_worker.Protocol.Recovery.{
  Assignment, Plan, plan_one, plan_recovery, recovery_delivery_id, recovery_wake, same_active_pr,
}
use bke_worker.Session.State.{Session, Socket}
use bke_worker.Session.Sockets.{
  authoritative_socket, deliver, push_frame, send_active_if_safe, update_socket,
}
use bke_worker.Session.Reply.{
  recovery_failed, Reply, preserved_active_assignment, head_converged, recovery_conflict,
}
use bke_worker.Session.Recover.{failed, found, assigned_to, apply_plan, recover_with}
use bke_worker.Session.Dispatch.{send_then, replace_active, put_queued}

-- The delivery id of the recovery of a worker's pull request at a head.
abbrev pub delivery_for : Text → Assignment → Text
delivery_for id a = text "recovery-" ++ (id ++ (b'-' ∷ (decimal a.number ++ (b'-' ∷ a.head_sha))))

-- The wake for a worker's pull request at its head, field by field.
abbrev pub wake_for : Text → Assignment → Wake
wake_for id a = record {
  worker_id = id;
  repo = text "jan2xo/bke-worker";
  pr_number = a.number;
  expected_head_sha = a.head_sha;
  reason = text "github_pull_request_reconnect_recovery";
  delivery_id = delivery_for id a;
}

recovery_wake-for : (id : Text) (a : Assignment) → recovery_wake (assigned_to id a) ≡ wake_for id a
unfolding recovery_wake recovery_delivery_id
recovery_wake-for id a = refl

-- The session with this wake active, in this phase, and no wake behind it.
abbrev pub working_on : Session → Wake → Phase → Session
working_on s w phase = record s {
  active = some (record { wake = w; phase = phase });
  queued = none;
}

-- Work that was given out is kept for its head, and marked for another.
abbrev pub Undelivered : Session → Text → Assignment → Active → Session × Reply → Type 0
Undelivered s id a act r =
    (r.0.sockets ≡ s.sockets)
    × (((act.wake.expected_head_sha ≡ a.head_sha)
          × (r.0 ≡ s)
          × (r.1 ≡ preserved_active_assignment (assigned_to id a) act.phase act.wake.delivery_id))
        ⊎ ((act.wake.expected_head_sha ≢ a.head_sha)
            × (r.0 ≡ working_on s (wake_for id a) Phase.recovery_required)
            × (r.1 ≡ head_converged (assigned_to id a) (delivery_for id a))))

text_eq-false : (t u : Text) → text_eq t u ≡ false → t ≢ u
text_eq-false t u h = ground (arith, text_eq_iff t u)

-- What is planned for work that was given out.
module _ (a : Assignment) (act : Active) (begun : act.phase ≢ Phase.queued)
    (number : act.wake.pr_number ≡ a.number) where
  is_queued-begun : is_queued act.phase ≡ false
  unfolding is_queued
  is_queued-begun = ground arith

  plan_same :
      text_eq act.wake.expected_head_sha a.head_sha ≡ true
      → plan_one a (some act) ≡ Plan.preserved_active_assignment a act.phase act.wake.delivery_id
  unfolding plan_one same_active_pr
  plan_same same = ground (arith, is_queued-begun)

  plan_other :
      text_eq act.wake.expected_head_sha a.head_sha ≡ false
      → plan_one a (some act) ≡ Plan.head_converged_without_redelivery a (recovery_wake a)
  unfolding plan_one same_active_pr
  plan_other other = ground (arith, is_queued-begun)

-- A worker that reconnects while its active wake is past waiting, and whose one assignment has the
-- number of that wake's pull request, is sent nothing: no socket changes. For the head of the
-- active wake the session is as before, and the answer names that wake's phase and delivery. For
-- another head the active wake becomes the one for the assignment's number and head, written out
-- field by field, in the phase `recovery_required`, no wake is queued, the rest of the session is
-- as before, and the answer names the new delivery.
pub recover_with_begun :
    (s : Session) (id : Text) (a : Assignment) (act : Active)
    → s.active ≡ some act
    → act.phase ≢ Phase.queued
    → act.wake.pr_number ≡ a.number
    → Undelivered s id a act (recover_with s id (found (a ∷ [])))
unfolding recover_with plan_recovery apply_plan
recover_with_begun s id a act busy begun number =
    elim (Bool-cases (text_eq act.wake.expected_head_sha a.head_sha)) [
      | inl same ↦
          rw (busy, plan_same (assigned_to id a) act begun number same)
            (refl, inl ((text_eq_iff _ _).0 same, refl, refl))
      | inr other ↦
          rw (busy, plan_other (assigned_to id a) act begun number other, recovery_wake-for id a)
            (refl, inr (text_eq-false _ _ other, refl, refl))
    ]

-- One assignment in front of work that may be replaced is taken up.
plan_anew :
    (s : Session) (a : Assignment)
    → ((act : Active)
        → s.active ≡ some act
        → (act.phase ≡ Phase.queued) ⊎ (act.wake.pr_number ≢ a.number))
    → plan_one a s.active ≡ Plan.recovered a (recovery_wake a)
unfolding plan_one same_active_pr is_queued
plan_anew s a free = elim (Option-cases s.active) [
  | inl idle ↦ rw idle refl
  | inr (act, busy) ↦ elim (free act busy) [
    | inl waits ↦ rw busy (ground arith)
    | inr apart ↦ rw busy (ground arith)
  ]
]

-- The wake of the assignment takes the place of all work, and is sent if a socket may get it.
abbrev pub TakenUp : Session → Text → Assignment → Session × Reply → Type 0
TakenUp s id a r =
    ((authoritative_socket s ≡ none)
      × (r.0 ≡ working_on s (wake_for id a) Phase.queued)
      × (r.1 ≡ Reply.recovered false (assigned_to id a) (delivery_for id a)))
    ⊎ ((socket : Socket) × (authoritative_socket s ≡ some socket)
        × (r.0 ≡ record (working_on s (wake_for id a) Phase.sent) {
          sockets = update_socket socket.handle (push_frame (wake_for id a)) s.sockets;
        })
        × (r.1 ≡ Reply.recovered true (assigned_to id a) (delivery_for id a)))

-- What the send after a replacement comes to.
module _ (s : Session) (w : Wake) (reply : Bool → Reply) where
  send_missing :
      authoritative_socket s ≡ none
      → send_then (replace_active s w) reply ≡ (working_on s w Phase.queued, reply false)
  unfolding send_then replace_active put_queued send_active_if_safe authoritative_socket is_queued
  send_missing missing = rw missing refl

  send_there :
      (socket : Socket)
      → authoritative_socket s ≡ some socket
      → send_then (replace_active s w) reply ≡ (
        record (working_on s w Phase.sent) {
          sockets = update_socket socket.handle (push_frame w) s.sockets;
        },
        reply true,
      )
  unfolding send_then replace_active put_queued send_active_if_safe authoritative_socket deliver
      is_queued
  send_there socket there = rw there refl

sent_anew :
    (s : Session) (id : Text) (a : Assignment)
    → TakenUp s id a (
        send_then
          (replace_active s (wake_for id a))
          (λ was_sent. Reply.recovered was_sent (assigned_to id a) (delivery_for id a)))
sent_anew s id a =
    let reply = λ (b : Bool). Reply.recovered b (assigned_to id a) (delivery_for id a) in
    elim (Option-cases (authoritative_socket s)) [
      | inl missing ↦ rw (send_missing s (wake_for id a) reply missing) (inl (missing, refl, refl))
      | inr (socket, there) ↦
          rw (send_there s (wake_for id a) reply socket there) (inr (socket, there, refl, refl))
    ]

-- A worker that reconnects with one assignment, while the object has no active wake, one that still
-- waits, or one for another pull request in any phase, gets a new wake for the assignment's number
-- and head, written out field by field. The new wake takes the place of the active one, and no wake
-- is queued. If a socket is authoritative, it alone gets one frame, the new wake, which is then in
-- the phase `sent`; otherwise the wake waits and no socket changes. The answer says whether it was
-- sent, and the rest of the session is as before.
pub recover_with_anew :
    (s : Session) (id : Text) (a : Assignment)
    → ((act : Active)
        → s.active ≡ some act
        → (act.phase ≡ Phase.queued) ⊎ (act.wake.pr_number ≢ a.number))
    → TakenUp s id a (recover_with s id (found (a ∷ [])))
unfolding recover_with plan_recovery apply_plan
recover_with_anew s id a free =
    rw (plan_anew s (assigned_to id a) free, recovery_wake-for id a) (sent_anew s id a)

-- More than one assignment, or a failure of GitHub's, changes nothing.
pub recover_with_unsure :
    (s : Session) (id : Text) (a b : Assignment) (rest : List Assignment) (error : Text)
    → (recover_with s id (found (a ∷ b ∷ rest)) ≡ (s, recovery_conflict (a ∷ b ∷ rest)))
      × (recover_with s id (failed error) ≡ (s, recovery_failed error))
unfolding recover_with
recover_with_unsure s id a b rest error = (refl, refl)
