-- ===== src/Relay/Tests.antt =====
-- The theorems about the HTTP entry points at a signed event, and at a recovery.
use bke_worker.Relay.Causes.{Served}
use bke_worker.Relay.Delivery.{delivered}
use bke_worker.Prelude.{inl, ◌≡◌, refl, true, false, none, some, [], ◌∷◌, arith}
use bke_worker.Protocol.Routing.Fixtures.{worker, payload, wake, lower_ascii, payload_routed}
use bke_worker.Relay.{
  is_declared_too_large, recovery_body, answer_with, recovery_path_invalid, stub_fetch,
  serve_worker_path, serve_recovery_path, from_session, put_session, handle_relay_recovery,
  serve_relay_path, handle_github_webhook, Webhook, serve_http, HttpRequest,
}
use bke_worker.Protocol.Patterns.{is_worker_id}
use bke_worker.Text.{ends_with, split_at, includes, starts_with, text, text_eq, Text}
use bke_worker.Relay.World.{
  relay_run-IsInOrder, said, requested, relay_run, new_sessions, IsInOrder,
}
use bke_worker.Relay.Paths.{recovery_match, relay_remainder, relay_path_worker_id}
use bke_worker.Js.Integer.{pos}
use bke_worker.Relay.Causes.{serve_http-Served}
use bke_worker.Session.Recover.{recover, found}
use bke_worker.Relay.Delivery.{handle_github_webhook-delivered}
use bke_worker.Session.Messages.{binary}
use bke_worker.Session.Reply.{recovery_request_invalid}
use bke_worker.Relay.Recovery.{serve_http-refused}
use bke_worker.Protocol.Frames.{validate_recovery_request}
use bke_worker.Js.Keys.{exact_keys}
use bke_worker.Session.Events.{route_request, ensure_identity, serve, fetch, new_session}

abbrev signed_event : Webhook
signed_event = record {
  secret_configured = true;
  delivery_id = text "72d3162e";
  event_name = text "pull_request";
  declared_length = some (pos 4096);
  byte_length = 4096;
  signature_valid = true;
  payload = payload;
}

abbrev request_of : Text → Text → HttpRequest
request_of method pathname = record {
  method = method;
  pathname = pathname;
  webhook = signed_event;
  token_request = record { has_bearer = false; broker_error = none };
  token_configured = true;
  bearer_matches = λ id. text_eq id worker;
  is_websocket = true;
  connection_id = text "c-1";
  handle = 1;
  assignments = λ id. found [];
}

abbrev posted_event : HttpRequest
posted_event = request_of (text "POST") (text "/webhooks/github")

abbrev recovery : HttpRequest
recovery = request_of (text "POST") (text "/relay/android-worker-a/recover")

handle_github_webhook-delivered_example :
    handle_github_webhook lower_ascii new_sessions signed_event ≡ delivered new_sessions worker wake
unfolding is_declared_too_large
handle_github_webhook-delivered_example =
    handle_github_webhook-delivered lower_ascii new_sessions signed_event worker wake refl refl
      (omega arith) refl refl payload_routed (inl refl)

serve_http-Served_example :
    Served lower_ascii some posted_event new_sessions
      (serve_http lower_ascii some new_sessions posted_event).0
      worker
serve_http-Served_example = serve_http-Served lower_ascii some posted_event new_sessions worker

serve_http-refused_example : serve_http lower_ascii some new_sessions recovery ≡ (
  put_session new_sessions worker (record new_session { identity = some worker }),
  from_session recovery_request_invalid,
)
unfolding is_worker_id text text_eq
serve_http-refused_example =
    serve_http-refused lower_ascii some new_sessions recovery worker refl refl refl refl refl refl
      (inl refl)

-- The event makes the wake active, and the recovery after it is refused.
relay_run-IsInOrder_example : IsInOrder worker (
    relay_run lower_ascii some new_sessions
      (requested posted_event ∷ requested recovery ∷ said worker 1 binary ∷ [])
      worker)
relay_run-IsInOrder_example =
    relay_run-IsInOrder lower_ascii some
      (requested posted_event ∷ requested recovery ∷ said worker 1 binary ∷ []) worker

-- The paths of a worker and of its recovery, and of the worker whose id is `recover`.
paths :
    (relay_path_worker_id some (text "/relay/android-worker-a") ≡ some worker)
    × (recovery_match (text "/relay/android-worker-a/recover") ≡ some worker)
    × ((serve_http lower_ascii some new_sessions
          (request_of (text "GET") (text "/relay/recover"))).1
        ≡ recovery_path_invalid)
unfolding relay_path_worker_id relay_remainder recovery_match starts_with includes split_at text
    text_eq serve_http serve_relay_path serve_worker_path ends_with
paths = (refl, refl, refl)

recovery_answer :
    (serve_http lower_ascii some new_sessions recovery).1 ≡ from_session recovery_request_invalid
unfolding serve_http serve_relay_path relay_path_worker_id relay_remainder recovery_match
    starts_with includes split_at text text_eq serve_recovery_path handle_relay_recovery stub_fetch
    answer_with fetch serve ensure_identity route_request recover recovery_body
    validate_recovery_request exact_keys is_worker_id
recovery_answer = refl
