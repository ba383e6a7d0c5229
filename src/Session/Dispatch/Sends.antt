-- ===== src/Session/Dispatch/Sends.antt =====
-- What an incoming wake can send, and what the response says of it.
use bke_worker.Prelude.{
  inl, inr, Option-cases, Bool-cases, ◌||◌, ◌∙◌, sym, ap, if◌then◌else◌, sym, ap, Bool, true, false,
  ◌≡◌, refl, some, arith,
}
use bke_worker.Text.{Text}
use bke_worker.Protocol.Wake.{Wake}
use bke_worker.Protocol.Active.{is_queued, Phase, Active}
use bke_worker.Session.State.{Session}
use bke_worker.Session.Reply.{Reply, cross_pr_recovered, reassigned, superseded, started}
use bke_worker.Session.Sockets.{authoritative_socket}
use bke_worker.Session.Sockets.Sending.{
  send_active_if_safe-silent, Sends, send_active_if_safe-silent, send_active_if_safe-Sends,
}
use bke_worker.Session.Dispatch.{
  supersedes_stale_head, is_reassignment, dispatch_wake, dispatch_busy, dispatch_idle,
  dispatch_remembered, dispatch_same_pr, remember_delivery, send_then, put_queued, replace_active,
}

-- Whether the response reports a state that ends in `sent`.
abbrev pub reports_sent : Reply → Bool
reports_sent (cross_pr_recovered was_sent d pr d') = was_sent
reports_sent (reassigned was_sent d d') = was_sent
reports_sent (superseded was_sent d d') = was_sent
reports_sent (started was_sent d) = was_sent
reports_sent reply = false

-- The response is true to what `t` did to the sockets of `s`, for an incoming wake `w`.
pub record IsReported (w : Wake) (s : Session) (r : Session × Reply) : Type 0 where
  pub silent : reports_sent r.1 ≡ false → r.0.sockets ≡ s.sockets
  pub sends : reports_sent r.1 ≡ true → Sends w s r.0

module _ (s : Session) (w : Wake) (reply : Bool → Reply)
    (honest : (b : Bool) → reports_sent (reply b) ≡ b) where
  send_then-IsReported :
      s.active ≡ some (record { wake = w; phase = Phase.queued })
      → IsReported w s (send_then s reply)
  unfolding send_then
  send_then-IsReported e = record {
    silent = λ h. ap (λ t. t.sockets) (send_active_if_safe-silent s (sym (honest _) ∙ h));
    sends = λ h. send_active_if_safe-Sends s w e (sym (honest _) ∙ h);
  }

-- The starting point matters only by its connection and its sockets.
IsReported-base :
    (w : Wake) (s s' : Session) (r : Session × Reply)
    → s'.sockets ≡ s.sockets
    → s'.connection ≡ s.connection
    → IsReported w s' r
    → IsReported w s r
unfolding authoritative_socket
IsReported-base w s s' r same_sockets same_connection h = record {
  silent = λ e. h.silent e ∙ same_sockets;
  sends = λ e.
      let k = h.sends e in
      record {
        socket = k.socket;
        authoritative = ground arith;
        delivered = ground arith;
        marked = k.marked;
      };
}

module _ (s : Session) (w : Wake) where
  replaced :
      (reply : Bool → Reply)
      → ((b : Bool) → reports_sent (reply b) ≡ b)
      → IsReported w s (send_then (replace_active s w) reply)
  unfolding replace_active put_queued
  replaced reply honest =
      IsReported-base w s (replace_active s w) _ refl refl
        (send_then-IsReported (replace_active s w) w reply honest refl)

  unsent :
      (t : Session) (reply : Reply)
      → t.sockets ≡ s.sockets
      → reports_sent reply ≡ false
      → IsReported w s (t, reply)
  unsent t reply same quiet = record { silent = λ _. same; sends = λ e. cc }

  reassigned_honest :
      (labeled : Bool) (d d' : Text) (b : Bool)
      → reports_sent (if labeled then reassigned b d d' else superseded b d d') ≡ b
  reassigned_honest true d d' b = refl
  reassigned_honest false d d' b = refl

  dispatch_same_pr-IsReported : (act : Active) → IsReported w s (dispatch_same_pr s act w)
  unfolding dispatch_same_pr put_queued
  dispatch_same_pr-IsReported act =
      elim (Bool-cases (supersedes_stale_head act w || is_reassignment act w)) [
        | inl replaces ↦ rw (replaces, dispatch_same_pr) (replaced _ (reassigned_honest _ _ _))
        | inr other ↦
            rw (other, dispatch_same_pr)
              (elim (Bool-cases (is_queued act.phase)) [
                | inl waiting ↦ rw waiting (unsent _ _ refl refl)
                | inr begun ↦ rw begun (unsent _ _ refl refl)
              ])
      ]

  dispatch_remembered-IsReported : (act : Active) → IsReported w s (dispatch_remembered s act w)
  unfolding dispatch_remembered
  dispatch_remembered-IsReported act = ground (
    arith,
    dispatch_same_pr-IsReported act,
    replaced
        (λ (b : Bool). cross_pr_recovered b w.delivery_id act.wake.pr_number act.wake.delivery_id)
        (λ b. refl),
  )

module _ (s : Session) (w : Wake) where
  dispatch_busy-IsReported : (act : Active) → IsReported w s (dispatch_busy s act w)
  unfolding dispatch_busy remember_delivery
  dispatch_busy-IsReported act =
      let s' = remember_delivery s w.delivery_id in
      ground (arith, IsReported-base w s s' _ refl refl (dispatch_remembered-IsReported s' w act))

  dispatch_idle-IsReported : IsReported w s (dispatch_idle s w)
  unfolding dispatch_idle put_queued remember_delivery
  dispatch_idle-IsReported =
      let s' = put_queued (remember_delivery s w.delivery_id) w in
      ground (
        arith,
        IsReported-base w s s' _ refl refl
            (send_then-IsReported s' w (λ b. started b w.delivery_id) (λ b. refl) refl),
      )

-- The response to an incoming wake is true: if it reports `sent`, then this wake was put on the
-- authoritative socket, once, it is the active wake, in the phase `sent`, and the other sockets are
-- as before; otherwise no socket changed.
pub dispatch_wake-IsReported : (s : Session) (w : Wake) → IsReported w s (dispatch_wake s w)
unfolding dispatch_wake
dispatch_wake-IsReported s w = elim (Option-cases s.active) [
  | inl idle ↦ ground (arith, dispatch_idle-IsReported s w)
  | inr (act, busy) ↦ ground (arith, dispatch_busy-IsReported s w act)
]
