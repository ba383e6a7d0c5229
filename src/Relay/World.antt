-- ===== src/Relay/World.antt =====
-- The relay as a whole: HTTP requests, and what happens on the sockets of the `WorkerSession`
-- objects of `cloudflare-relay/src/index.js`, in any order.
use bke_worker.Prelude.{Bool, inr, sym, subst, inl, if_holds, Option, ℕ, ◌≡◌, refl, List, [], ◌∷◌}
use bke_worker.Session.Events.{
  fetch, step, new_session, Request, Event, message, closed, errored, dropped,
}
use bke_worker.Relay.{serve_http, put_session, HttpRequest, Sessions}
use bke_worker.Text.{text_eq, Text}
use bke_worker.Session.Consistency.Steps.{step-HasWork, IsSound}
use bke_worker.Session.State.{Session}
use bke_worker.Relay.Causes.{by_recovery, by_upgrade, by_webhook, serve_http-Served, Cause}
use bke_worker.Session.Consistency.Identity.{ensure_identity-own, step-identity, fetch-IsOwn, IsOwn}
use bke_worker.Session.Consistency.Work.{HasWork}
use bke_worker.Text.Equality.{text_eq→eq}
use bke_worker.Session.Consistency.Requests.{ensure_identity-HasWork, fetch-HasWork}
use bke_worker.Relay.Recovery.{recovery-refused}
use bke_worker.Session.Messages.{binary, Message}

-- A socket of the object of a worker says something, ends or fails, or the runtime drops it.
pub data RelayEvent : Type 0 where
  requested : HttpRequest → RelayEvent
  said : Text → ℕ → Message → RelayEvent
  ended failed gone : Text → ℕ → RelayEvent

unfoldable pub on_object : Sessions → Text → Event → Sessions
on_object sessions id e = put_session sessions id (step (sessions id) e)

module _ (lower : Text → Text) (decode : Text → Option Text) where
  unfoldable pub relay_step : Sessions → RelayEvent → Sessions
  relay_step sessions (requested r) = (serve_http lower decode sessions r).0
  relay_step sessions (said id n m) = on_object sessions id (message n m)
  relay_step sessions (ended id n) = on_object sessions id (closed n)
  relay_step sessions (failed id n) = on_object sessions id (errored n)
  relay_step sessions (gone id n) = on_object sessions id (dropped n)

  unfoldable pub relay_run : Sessions → List RelayEvent → Sessions
  relay_run sessions [] = sessions
  relay_run sessions (e ∷ es) = relay_run (relay_step sessions e) es

-- No object has seen an event.
abbrev pub new_sessions : Sessions
new_sessions id = new_session

-- The object of `id` stores that id or none, and its work is in order.
pub record IsInOrder (id : Text) (s : Session) : Type 0 where
  pub own : IsOwn id s
  pub work : HasWork s

-- A request with a cause leaves the object in order; a recovery is refused.
caused-IsInOrder :
    (lower : Text → Text) (decode : Text → Option Text) (r : HttpRequest) (s : Session) (id : Text)
    (q : Request)
    → Cause lower decode r id q
    → IsInOrder id s
    → IsInOrder id (fetch s id q).0
caused-IsInOrder lower decode r s id q (by_webhook wake k) h = record {
  own = fetch-IsOwn s id q h.own;
  work = fetch-HasWork s id q tt h.work;
}
caused-IsInOrder lower decode r s id q (by_upgrade get upgrade path k) h = record {
  own = fetch-IsOwn s id q h.own;
  work = fetch-HasWork s id q tt h.work;
}
caused-IsInOrder lower decode r s id q (by_recovery post k) h = record {
  own = fetch-IsOwn s id q h.own;
  work =
      let e = ensure_identity-own s id h.own in
      rw (recovery-refused s id (r.assignments id) k.is_valid_id h.own)
        (subst (λ (a : Session × Bool). HasWork a.0) e (ensure_identity-HasWork s id h.work));
}

on_object-IsInOrder :
    (sessions : Sessions) (at : Text) (e : Event)
    → ((id : Text) → IsInOrder id (sessions id))
    → IsSound e
    → (step (sessions at) e).identity ≡ (sessions at).identity
    → (id : Text) → IsInOrder id (on_object sessions at e id)
unfolding on_object put_session
on_object-IsInOrder sessions at e h ok kept id =
    if_holds (IsInOrder id) (text_eq at id) _ _
      (λ same.
        subst (λ i. IsInOrder i (step (sessions at) e)) (text_eq→eq at id same)
          (record { own = rw kept (h at).own; work = step-HasWork (sessions at) e ok (h at).work }))
      (λ other. h id)

module _ (lower : Text → Text) (decode : Text → Option Text) where
  relay_step-IsInOrder :
      (sessions : Sessions) (e : RelayEvent)
      → ((id : Text) → IsInOrder id (sessions id))
      → (id : Text) → IsInOrder id (relay_step lower decode sessions e id)
  unfolding relay_step
  relay_step-IsInOrder sessions (requested r) h id =
      elim (serve_http-Served lower decode r sessions id) [
        | inl same ↦ subst (IsInOrder id) (sym same) (h id)
        | inr (q, why, after) ↦
            subst (IsInOrder id) (sym after)
              (caused-IsInOrder lower decode r (sessions id) id q why (h id))
      ]
  relay_step-IsInOrder sessions (said at n m) h id =
      on_object-IsInOrder sessions at _ h tt (step-identity (sessions at) n m).0 id
  relay_step-IsInOrder sessions (ended at n) h id =
      on_object-IsInOrder sessions at _ h tt (step-identity (sessions at) n binary).1 id
  relay_step-IsInOrder sessions (failed at n) h id =
      on_object-IsInOrder sessions at _ h tt (step-identity (sessions at) n binary).2 id
  relay_step-IsInOrder sessions (gone at n) h id =
      on_object-IsInOrder sessions at _ h tt (step-identity (sessions at) n binary).3 id

  relay_run_from-IsInOrder :
      (sessions : Sessions) (es : List RelayEvent)
      → ((id : Text) → IsInOrder id (sessions id))
      → (id : Text) → IsInOrder id (relay_run lower decode sessions es id)
  unfolding relay_run
  relay_run_from-IsInOrder sessions [] h = h
  relay_run_from-IsInOrder sessions (e ∷ es) h =
      relay_run_from-IsInOrder (relay_step lower decode sessions e) es
        (relay_step-IsInOrder sessions e h)

  -- After any sequence of HTTP requests and socket events from new objects, the object that a
  -- worker's id names stores that id or none, and its active and its queued wake are in order and
  -- addressed to that worker, a wake waiting only behind one of its own pull request that is no
  -- longer waiting. Nothing is assumed of GitHub.
  pub relay_run-IsInOrder :
      (es : List RelayEvent) (id : Text) → IsInOrder id (relay_run lower decode new_sessions es id)
  relay_run-IsInOrder es =
      relay_run_from-IsInOrder new_sessions es
        (λ id. record { own = inl refl; work = record { active_for = tt; queued_for = tt } })
