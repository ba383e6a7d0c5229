-- ===== src/Session/Dispatch/Redelivery.antt =====
-- GitHub delivers a webhook again: the second delivery of a wake.
use bke_worker.Prelude.{true, ◌≡◌, ◌⊎◌, arith, Option-cases, inl, inr}
use bke_worker.Text.{has_text}
use bke_worker.Protocol.Wake.{Wake}
use bke_worker.Protocol.Active.{Active}
use bke_worker.Session.State.{Session}
use bke_worker.Session.Reply.{Reply, duplicate, status_of}
use bke_worker.Session.Dispatch.{
  dispatch_wake, dispatch_busy, dispatch_idle, remember_delivery, send_then, put_queued,
}
use bke_worker.Session.Consistency.Recent.{has_text-remember_delivery}
use bke_worker.Session.Consistency.Window.{dispatch_remembered-recent, send_active_if_safe-recent}

-- Either nothing was done, with a status 409, or the delivery is remembered.
abbrev IsSettled : Session → Wake → Session × Reply → Type 0
IsSettled s w r = ((status_of r.1 ≡ 409) × (r.0 ≡ s)) ⊎ (has_text r.0.recent w.delivery_id ≡ true)

module _ (s : Session) (w : Wake) where
  dispatch_busy-IsSettled : (act : Active) → IsSettled s w (dispatch_busy s act w)
  unfolding dispatch_busy status_of
  dispatch_busy-IsSettled act = ground (
    arith,
    has_text-remember_delivery s w.delivery_id,
    dispatch_remembered-recent (remember_delivery s w.delivery_id) act w,
  )

  dispatch_idle-IsSettled : IsSettled s w (dispatch_idle s w)
  unfolding dispatch_idle send_then put_queued status_of
  dispatch_idle-IsSettled = ground (
    arith,
    has_text-remember_delivery s w.delivery_id,
    send_active_if_safe-recent (put_queued (remember_delivery s w.delivery_id) w),
  )

  dispatch_wake-IsSettled : IsSettled s w (dispatch_wake s w)
  unfolding dispatch_wake
  dispatch_wake-IsSettled = elim (Option-cases s.active) [
    | inl idle ↦ ground (arith, dispatch_idle-IsSettled)
    | inr (act, busy) ↦ ground (arith, dispatch_busy-IsSettled act)
  ]

  remembered-duplicate :
      has_text s.recent w.delivery_id ≡ true → dispatch_wake s w ≡ (s, duplicate w.delivery_id)
  unfolding dispatch_wake
  remembered-duplicate h = rw h

-- A wake is either refused with status 409, and the session is as before, or its delivery counts:
-- delivered again at once, it is answered as a duplicate and changes nothing.
pub dispatch_wake_again :
    (s : Session) (w : Wake)
    → let (s', reply) = dispatch_wake s w in
      ((status_of reply ≡ 409) × (s' ≡ s)) ⊎ (dispatch_wake s' w ≡ (s', duplicate w.delivery_id))
dispatch_wake_again s w = elim (dispatch_wake-IsSettled s w) [
  | inl refused ↦ inl refused
  | inr kept ↦ inr (remembered-duplicate (dispatch_wake s w).0 w kept)
]
