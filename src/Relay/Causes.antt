-- ===== src/Relay/Causes.antt =====
-- What an HTTP request has to show before it changes a `WorkerSession`: the entry points of
-- `cloudflare-relay/src/index.js` against the events of one object.
use bke_worker.Text.{ends_with, text_eq, text, Text}
use bke_worker.Relay.{
  is_declared_too_large, relay_unauthorized, relay_token_unconfigured, worker_id_invalid,
  from_session, relayed, handle_relay_upgrade, serve_relay_path, handle_relay_recovery, serve_http,
  serve_worker_path, relay_route, handle_github_webhook, serve_recovery_path, recovery_body,
  connect_for, HttpAnswer, max_webhook_bytes, put_session, stub_fetch, Sessions, answer_with,
  HttpRequest,
}
use bke_worker.Protocol.Patterns.{is_worker_id}
use bke_worker.Session.Events.{Request}
use bke_worker.Protocol.Wake.{wake_value, Wake}
use bke_worker.Session.Events.{recover_request, connect_request, fetch, dispatch_request}
use bke_worker.Relay.Paths.{recovery_match, relay_path_worker_id}
use bke_worker.Session.Reply.{Reply}
use bke_worker.Protocol.Routing.{Route, routed, route_github_pull_request}
use bke_worker.Js.Value.{null, same_value, str}
use bke_worker.Text.Equality.{text_eq→eq}
use bke_worker.Prelude.{
  ltb, ◌||◌, refl, false, Bool, Option-cases, if_holds, not, if◌then◌else◌, arith, subst, inr, inl,
  Bool-cases, some, ◌≤◌, ◌⊎◌, Option, ◌≡◌, true,
}

-- The requests that reach the object of `id`, and what the HTTP request showed.
module _ (lower : Text → Text) (decode : Text → Option Text) (r : HttpRequest) where
  pub record IsRouted (id : Text) (wake : Wake) : Type 0 where
    pub at_path : r.pathname ≡ text "/webhooks/github"
    pub posted : r.method ≡ text "POST"
    pub has_secret : r.webhook.secret_configured ≡ true
    pub is_small : r.webhook.byte_length ≤ max_webhook_bytes
    pub is_signed : r.webhook.signature_valid ≡ true
    pub of_pull_request : r.webhook.event_name ≡ text "pull_request"
    pub names_worker :
        route_github_pull_request lower r.webhook.payload (str r.webhook.delivery_id)
        ≡ routed id wake

  pub record IsBearer (id : Text) : Type 0 where
    pub is_valid_id : is_worker_id id ≡ true
    pub has_token : r.token_configured ≡ true
    pub is_authorized : r.bearer_matches id ≡ true

  pub data Cause (id : Text) : Request → Type 0 where
    by_webhook : (wake : Wake) → IsRouted id wake → Cause id (dispatch_request (wake_value wake))
    by_upgrade :
        r.method ≡ text "GET"
        → r.is_websocket ≡ true
        → relay_path_worker_id decode r.pathname ≡ some id
        → IsBearer id
        → Cause id (connect_request (connect_for r id))
    by_recovery :
        r.method ≡ text "POST"
        → IsBearer id
        → Cause id (recover_request (recovery_body id) (r.assignments id))

  -- The object is as before, or took one request that has a cause.
  abbrev pub Served : Sessions → Sessions → Text → Type 0
  Served sessions after id =
      (after id ≡ sessions id)
      ⊎ ((q : Request) × Cause id q × (after id ≡ (fetch (sessions id) id q).0))

  stub_fetch-Served :
      (sessions : Sessions) (worker_id : Text) (q : Request) (answer : Reply → HttpAnswer)
      (id : Text)
      → Cause worker_id q
      → Served sessions (answer_with answer (stub_fetch sessions worker_id q)).0 id
  unfolding answer_with stub_fetch put_session
  stub_fetch-Served sessions worker_id q answer id why = elim (Bool-cases (text_eq worker_id id)) [
    | inl same ↦ inr (
      q,
      subst (λ w. Cause w q) (text_eq→eq worker_id id same) why,
      ground (arith, text_eq→eq worker_id id same),
    )
    | inr other ↦ inl (ground arith)
  ]

  -- A test that refuses leaves every object alone.
  step-Served :
      (sessions : Sessions) (id : Text) (test : Bool) (refusal : HttpAnswer)
      (next : Sessions × HttpAnswer)
      → (test ≡ false → Served sessions next.0 id)
      → Served sessions (if test then (sessions, refusal) else next).0 id
  step-Served sessions id true refusal next h = inl refl
  step-Served sessions id false refusal next h = h refl

  relay_route-Served :
      (sessions : Sessions) (id : Text) (route : Route)
      → ((w : Text) (wake : Wake) → route ≡ routed w wake → IsRouted w wake)
      → Served sessions (relay_route sessions route).0 id
  unfolding relay_route
  relay_route-Served sessions id (routed w wake) h =
      stub_fetch-Served sessions w _ (relayed w wake) id (by_webhook wake (h w wake refl))
  relay_route-Served sessions id route h = inl refl

  handle_github_webhook-Served :
      (sessions : Sessions) (id : Text)
      → r.pathname ≡ text "/webhooks/github"
      → r.method ≡ text "POST"
      → Served sessions (handle_github_webhook lower sessions r.webhook).0 id
  unfolding handle_github_webhook
  handle_github_webhook-Served sessions id path method =
      step-Served sessions id (not r.webhook.secret_configured) _ _ λ secret.
        step-Served sessions id
          (is_declared_too_large r.webhook.declared_length
            || ltb max_webhook_bytes r.webhook.byte_length)
          _ _
          λ small. step-Served sessions id (not r.webhook.signature_valid) _ _ λ signed.
            step-Served sessions id (text_eq r.webhook.event_name (text "ping")) _ _ λ event.
              step-Served sessions id (not (text_eq r.webhook.event_name (text "pull_request"))) _ _
                λ pull. step-Served sessions id (same_value r.webhook.payload null) _ _ λ payload.
                  relay_route-Served sessions id _ λ w wake e. record {
                    at_path = path;
                    posted = method;
                    has_secret = ground arith;
                    is_small = ground arith;
                    is_signed = ground arith;
                    of_pull_request = text_eq→eq _ _ (ground arith);
                    names_worker = e;
                  }

  guarded-Served :
      (sessions : Sessions) (worker_id id : Text) (next : Sessions × HttpAnswer)
      → (IsBearer worker_id → Served sessions next.0 id)
      → Served sessions
          (if not (is_worker_id worker_id)
            then (sessions, worker_id_invalid)
            else if not r.token_configured
            then (sessions, relay_token_unconfigured)
            else if not (r.bearer_matches worker_id)
            then (sessions, relay_unauthorized)
            else next).0
          id
  guarded-Served sessions worker_id id next h =
      step-Served sessions id (not (is_worker_id worker_id)) _ _ λ valid.
        step-Served sessions id (not r.token_configured) _ _ λ token.
          step-Served sessions id (not (r.bearer_matches worker_id)) _ _ λ bearer. h (record {
            is_valid_id = ground arith;
            has_token = ground arith;
            is_authorized = ground arith;
          })

  serve_worker_path-Served :
      (sessions : Sessions) (worker_id id : Text)
      → relay_path_worker_id decode r.pathname ≡ some worker_id
      → Served sessions (serve_worker_path sessions r worker_id).0 id
  unfolding serve_worker_path handle_relay_upgrade
  serve_worker_path-Served sessions worker_id id path =
      step-Served sessions id (ends_with r.pathname (text "/recover")) _ _ λ plain.
        step-Served sessions id (not (text_eq r.method (text "GET"))) _ _ λ method.
          guarded-Served sessions worker_id id _ λ bearer.
            step-Served sessions id (not r.is_websocket) _ _ λ upgrade.
              stub_fetch-Served sessions worker_id _ from_session id
                (by_upgrade (text_eq→eq _ _ (ground arith)) (ground arith) path bearer)

  serve_recovery_path-Served :
      (sessions : Sessions) (part id : Text)
      → Served sessions (serve_recovery_path decode sessions r part).0 id
  unfolding serve_recovery_path handle_relay_recovery
  serve_recovery_path-Served sessions part id = elim (Option-cases (decode part)) [
    | inl throws ↦ rw (throws, serve_recovery_path) (inl refl)
    | inr (worker_id, decodes) ↦
        rw (decodes, serve_recovery_path)
          (step-Served sessions id (not (text_eq r.method (text "POST"))) _ _ λ method.
            guarded-Served sessions worker_id id _ λ bearer.
              stub_fetch-Served sessions worker_id _ from_session id
                (by_recovery (text_eq→eq _ _ (ground arith)) bearer))
  ]

  serve_relay_path-Served :
      (sessions : Sessions) (id : Text) → Served sessions (serve_relay_path decode sessions r).0 id
  unfolding serve_relay_path
  serve_relay_path-Served sessions id =
      elim (Option-cases (relay_path_worker_id decode r.pathname)) [
        | inr (worker_id, path) ↦
            rw (path, serve_relay_path) (serve_worker_path-Served sessions worker_id id path)
        | inl no_path ↦ elim (Option-cases (recovery_match r.pathname)) [
          | inl no_match ↦ rw (no_path, no_match, serve_relay_path) (inl refl)
          | inr (part, match) ↦
              rw (no_path, match, serve_relay_path) (serve_recovery_path-Served sessions part id)
        ]
      ]

  -- Whatever the HTTP request, the object of each worker is as it was, or has taken one request,
  -- which the HTTP request had the standing for: a wake, only from a signed event of a pull
  -- request, posted with no more than 1048576 bytes, that the routing gives to that very worker; a
  -- new socket, only from a `GET` of the worker's path for a websocket; and a recovery, only from a
  -- `POST`; the last two only with a valid worker id and the bearer token of that worker.
  pub serve_http-Served :
      (sessions : Sessions) (id : Text) → Served sessions (serve_http lower decode sessions r).0 id
  unfolding serve_http
  serve_http-Served sessions id =
      if_holds (λ (a : Sessions × HttpAnswer). Served sessions a.0 id) _ _ _
        (λ path.
          if_holds (λ (a : Sessions × HttpAnswer). Served sessions a.0 id) _ _ _
            (λ method.
              handle_github_webhook-Served sessions id (text_eq→eq _ _ path)
                (text_eq→eq _ _ method))
            (λ e. inl refl))
        λ other.
          step-Served sessions id (text_eq r.pathname (text "/github/app/install-token")) _ _
            λ relay. serve_relay_path-Served sessions id
