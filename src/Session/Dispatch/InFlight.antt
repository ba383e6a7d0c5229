-- ===== src/Session/Dispatch/InFlight.antt =====
-- A wake that may have reached the browser is not replaced by a webhook, with three exceptions.
use bke_worker.Prelude.{Bool, false, not, ◌&&◌, ◌||◌, ◌≡◌, some, arith}
use bke_worker.Protocol.Wake.{Wake}
use bke_worker.Protocol.Active.{Active, is_queued}
use bke_worker.Session.State.{Session}
use bke_worker.Session.Dispatch.{
  dispatch_wake, dispatch_busy, dispatch_remembered, dispatch_same_pr, remember_delivery, same_pr,
  supersedes_stale_head, is_reassignment, is_cross_pr_recovery,
}

-- The three grounds on which an incoming wake takes the place of the active one: a new head of the
-- same pull request, a fresh assignment label on it, or an explicit recovery from another one.
abbrev pub may_replace : Active → Wake → Bool
may_replace act w =
    supersedes_stale_head act w
    || is_reassignment act w
    || (not (same_pr act w) && is_cross_pr_recovery w)

module _ (s : Session) (act : Active) (w : Wake) (in_flight : is_queued act.phase ≡ false)
    (other : may_replace act w ≡ false) (busy : s.active ≡ some act) where
  dispatch_busy_keeps :
      ((dispatch_busy s act w).0.active ≡ some act)
      × ((dispatch_busy s act w).0.sockets ≡ s.sockets)
  unfolding dispatch_busy dispatch_remembered dispatch_same_pr remember_delivery
  dispatch_busy_keeps = ground arith

-- Without one of the three grounds, a wake that is past waiting stays active in its phase, and
-- nothing is sent or closed: no socket changes.
pub dispatch_wake_keeps :
    (s : Session) (act : Active) (w : Wake)
    → s.active ≡ some act
    → is_queued act.phase ≡ false
    → may_replace act w ≡ false
    → ((dispatch_wake s w).0.active ≡ some act) × ((dispatch_wake s w).0.sockets ≡ s.sockets)
unfolding dispatch_wake
dispatch_wake_keeps s act w busy in_flight other =
    ground (arith, dispatch_busy_keeps s act w in_flight other busy)
