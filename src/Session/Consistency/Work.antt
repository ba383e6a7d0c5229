-- ===== src/Session/Consistency/Work.antt =====
-- The active and the queued wake of a session, and what each operation makes of them.
use bke_worker.Prelude.{
  ◌||◌, Bool-cases, Option-cases, inl, inr, true, false, ◌≡◌, Option, none, some, arith,
}
use bke_worker.Text.{Text}
use bke_worker.Protocol.Wake.{Wake, IsWake}
use bke_worker.Protocol.Active.{Active, is_queued}
use bke_worker.Session.State.{Session}
use bke_worker.Session.Sockets.{send_active_if_safe}
use bke_worker.Session.Dispatch.{
  dispatch_busy, dispatch_idle, is_cross_pr_recovery, dispatch_wake, same_pr, put_queued,
  replace_active, remember_delivery, send_then, dispatch_same_pr, dispatch_remembered,
}

-- The wake is in order and addressed to the object's worker.
abbrev pub IsFor : Option Text → Wake → Type 0
IsFor identity w = IsWake w × (identity ≡ some w.worker_id)

abbrev pub ActiveFor : Option Text → Option Active → Type 0
ActiveFor identity none = Unit
ActiveFor identity (some act) = IsFor identity act.wake

-- A wake waits only behind a wake of its pull request that is no longer waiting itself.
abbrev pub QueuedFor : Option Text → Option Active → Option Wake → Type 0
QueuedFor identity active none = Unit
QueuedFor identity none (some w) = ⊥
QueuedFor identity (some act) (some w) =
    IsFor identity w × (act.wake.pr_number ≡ w.pr_number) × (is_queued act.phase ≡ false)

pub record HasWork (s : Session) : Type 0 where
  pub active_for : ActiveFor s.identity s.active
  pub queued_for : QueuedFor s.identity s.active s.queued

pub send_active_if_safe-HasWork : (s : Session) → HasWork s → HasWork (send_active_if_safe s).0
unfolding send_active_if_safe is_queued
send_active_if_safe-HasWork s h = ground arith

pub replace_active-HasWork :
    (s : Session) (w : Wake) → IsFor s.identity w → HasWork (replace_active s w)
unfolding replace_active put_queued
replace_active-HasWork s w k = record { active_for = k; queued_for = tt }

remember_delivery-HasWork : (s : Session) (d : Text) → HasWork s → HasWork (remember_delivery s d)
unfolding remember_delivery
remember_delivery-HasWork s d h = record { active_for = h.active_for; queued_for = h.queued_for }

pub put_queued-HasWork :
    (s : Session) (w : Wake) → s.queued ≡ none → IsFor s.identity w → HasWork (put_queued s w)
unfolding put_queued
put_queued-HasWork s w e k = ground arith

module _ (s : Session) (w : Wake) (h : HasWork s) (k : IsFor s.identity w) where
  sent_anew : HasWork (send_active_if_safe (replace_active s w)).0
  sent_anew = send_active_if_safe-HasWork (replace_active s w) (replace_active-HasWork s w k)

  dispatch_same_pr-HasWork :
      (act : Active)
      → s.active ≡ some act
      → same_pr act w ≡ true
      → HasWork (dispatch_same_pr s act w).0
  unfolding dispatch_same_pr send_then put_queued
  dispatch_same_pr-HasWork act e same = ground (arith, sent_anew)

  dispatch_remembered-HasWork :
      (act : Active)
      → s.active ≡ some act
      → (same_pr act w || is_cross_pr_recovery w) ≡ true
      → HasWork (dispatch_remembered s act w).0
  unfolding dispatch_remembered send_then
  dispatch_remembered-HasWork act e known =
      ground (arith, sent_anew, dispatch_same_pr-HasWork act e)

module _ (s : Session) (w : Wake) (h : HasWork s) (k : IsFor s.identity w) where
  dispatch_busy-HasWork : (act : Active) → s.active ≡ some act → HasWork (dispatch_busy s act w).0
  unfolding dispatch_busy remember_delivery
  dispatch_busy-HasWork act e = elim (Bool-cases (same_pr act w || is_cross_pr_recovery w)) [
    | inl known ↦ ground (
      arith,
      dispatch_remembered-HasWork (remember_delivery s w.delivery_id) w
          (remember_delivery-HasWork s w.delivery_id h) k act e known,
    )
    | inr foreign ↦ ground arith
  ]

  dispatch_idle-HasWork : s.active ≡ none → HasWork (dispatch_idle s w).0
  unfolding dispatch_idle send_then remember_delivery
  dispatch_idle-HasWork e =
      let fresh = put_queued-HasWork (remember_delivery s w.delivery_id) w (ground arith) k in
      ground (arith, send_active_if_safe-HasWork _ fresh)

  -- A wake that arrives leaves the session with work in order.
  pub dispatch_wake-HasWork : HasWork (dispatch_wake s w).0
  unfolding dispatch_wake
  dispatch_wake-HasWork = elim (Option-cases s.active) [
    | inl idle ↦ ground (arith, dispatch_idle-HasWork idle)
    | inr (act, busy) ↦ ground (arith, dispatch_busy-HasWork act busy)
  ]
