-- ===== src/Session/Dispatch.antt =====
-- A wake arrives from the webhook: `dispatch` and `rememberDelivery` of
-- `cloudflare-relay/src/index.js`.
pub mod Redelivery
pub mod InFlight
pub mod Sends
use bke_worker.Prelude.{
  ℕ, Bool, not, ◌&&◌, ◌||◌, [], ◌∷◌, ◌++◌, none, some, ◌==◌, if◌then◌else◌, keep, take_last,
}
use bke_worker.Text.{Text, text, text_eq, has_text}
use bke_worker.Js.Value.{Value}
use bke_worker.Protocol.Wake.{Wake, validate_wake, read_wake}
use bke_worker.Protocol.Active.{Active, is_queued, queued}
use bke_worker.Session.State.{Session}
use bke_worker.Session.Sockets.{send_active_if_safe}
use bke_worker.Session.Reply.{
  Reply, wake_invalid, duplicate, worker_wake_in_flight, cross_pr_recovery_not_required,
  self_synchronize_suppressed, continuation_pr_mismatch, continuation_blocked_uncertain,
  cross_pr_recovered, reassigned, superseded, coalesced_queued, started, queued_behind_active,
}

abbrev pub recent_delivery_limit : ℕ
recent_delivery_limit = 64

unfoldable pub remember_delivery : Session → Text → Session
remember_delivery s delivery_id = record s {
  recent =
      take_last recent_delivery_limit
        (keep (λ item. not (text_eq item delivery_id)) s.recent ++ delivery_id ∷ []);
}

-- `storage.put(ACTIVE_WAKE_KEY, {wake, phase: "queued"})`
unfoldable pub put_queued : Session → Wake → Session
put_queued s wake = record s { active = some (record { wake = wake; phase = queued }) }

-- Deletes the queued wake and stores the new one as active.
unfoldable pub replace_active : Session → Wake → Session
replace_active s wake = put_queued (record s { queued = none }) wake

-- `sendActiveIfSafe`, with a response that says whether it sent.
unfoldable pub send_then : Session → (Bool → Reply) → Session × Reply
send_then s reply = let (s', was_sent) = send_active_if_safe s in (s', reply was_sent)

abbrev pub is_cross_pr_recovery : Wake → Bool
is_cross_pr_recovery w = text_eq w.reason (text "github_pull_request_cross_pr_recovery")

abbrev pub is_continuation : Wake → Bool
is_continuation w = text_eq w.reason (text "github_pull_request_continuation")

abbrev pub is_self_synchronize : Wake → Bool
is_self_synchronize w = text_eq w.reason (text "github_pull_request_self_synchronize")

abbrev pub is_synchronize : Wake → Bool
is_synchronize w = text_eq w.reason (text "github_pull_request_synchronize")

abbrev pub is_labeled : Wake → Bool
is_labeled w = text_eq w.reason (text "github_pull_request_labeled")

abbrev pub same_pr : Active → Wake → Bool
same_pr act w = act.wake.pr_number == w.pr_number

abbrev pub same_head : Active → Wake → Bool
same_head act w = text_eq act.wake.expected_head_sha w.expected_head_sha

-- `supersedesStaleHead`, for an active wake
abbrev pub supersedes_stale_head : Active → Wake → Bool
supersedes_stale_head act w = same_pr act w && not (same_head act w) && is_synchronize w

-- `explicitReassignmentRecovery`, for an active wake
abbrev pub is_reassignment : Active → Wake → Bool
is_reassignment act w = same_pr act w && is_labeled w

-- From the `supersedesAmbiguousWake` test to the end, with a wake active.
unfoldable pub dispatch_same_pr : Session → Active → Wake → Session × Reply
dispatch_same_pr s act w =
    if supersedes_stale_head act w || is_reassignment act w
    then send_then (replace_active s w) (λ was_sent.
      if is_reassignment act w
      then reassigned was_sent w.delivery_id act.wake.delivery_id
      else superseded was_sent w.delivery_id act.wake.delivery_id)
    else if is_queued act.phase
    then (put_queued s w, coalesced_queued w.delivery_id)
    else (record s { queued = some w }, queued_behind_active w.delivery_id act.wake.delivery_id)

-- After `rememberDelivery`, with a wake active.
unfoldable pub dispatch_remembered : Session → Active → Wake → Session × Reply
dispatch_remembered s act w =
    if same_pr act w && not (is_queued act.phase) && not (same_head act w) && is_self_synchronize w
    then (s, self_synchronize_suppressed w.delivery_id act.wake.delivery_id)
    else if is_continuation w && not (same_pr act w)
    then (s, continuation_pr_mismatch act.wake.pr_number w.pr_number)
    else if is_continuation w && not (is_queued act.phase)
    then (s, continuation_blocked_uncertain w.delivery_id act.wake.delivery_id)
    else if not (same_pr act w) && is_cross_pr_recovery w
    then send_then (replace_active s w) (λ was_sent.
      cross_pr_recovered was_sent w.delivery_id act.wake.pr_number act.wake.delivery_id)
    else dispatch_same_pr s act w

-- A new delivery, with a wake active.
unfoldable pub dispatch_busy : Session → Active → Wake → Session × Reply
dispatch_busy s act w =
    if not (same_pr act w) && not (is_cross_pr_recovery w)
    then (s, worker_wake_in_flight act.wake.pr_number w.pr_number)
    else dispatch_remembered (remember_delivery s w.delivery_id) act w

-- A new delivery, with no wake active.
unfoldable pub dispatch_idle : Session → Wake → Session × Reply
dispatch_idle s w =
    if is_cross_pr_recovery w
    then (s, cross_pr_recovery_not_required)
    else send_then (put_queued (remember_delivery s w.delivery_id) w)
        (λ was_sent. started was_sent w.delivery_id)

unfoldable pub dispatch_wake : Session → Wake → Session × Reply
dispatch_wake s w =
    if has_text s.recent w.delivery_id
    then (s, duplicate w.delivery_id)
    else elim s.active [ none ↦ dispatch_idle s w | some act ↦ dispatch_busy s act w ]

-- `value` is what `parseJson` makes of the request's text, `null` if it does not parse.
unfoldable pub dispatch : Session → Text → Value → Session × Reply
dispatch s worker_id value =
    if validate_wake value (some worker_id)
    then dispatch_wake s (read_wake value)
    else (s, wake_invalid)
