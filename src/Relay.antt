-- ===== src/Relay.antt =====
-- The HTTP entry points of the relay: the default `fetch` of `cloudflare-relay/src/index.js` with
-- its handlers, over the `WorkerSession` objects that they address by a worker's id. What the
-- request shows to the code that is not in the repository is part of it here: the signature check's
-- answer, the broker's, GitHub's list of assignments. The checkpoint that is posted to a pull
-- request is left out; it changes nothing here.
pub mod Paths
pub mod Causes
pub mod World
pub mod Recovery
pub mod Delivery
mod Tests
use bke_worker.Text.{text, ends_with, text_eq, Text}
use bke_worker.Session.Reply.{Reply}
use bke_worker.Protocol.Routing.{route_github_pull_request, routed, Route}
use bke_worker.Session.Events.{
  Request, recover_request, connect_request, dispatch_request, fetch, Connect,
}
use bke_worker.Session.Recover.{Assignments}
use bke_worker.Session.State.{Session}
use bke_worker.Protocol.Wake.{wake_value, Wake}
use bke_worker.Relay.Paths.{recovery_match, relay_path_worker_id}
use bke_worker.Js.Value.{null, end, same_value, str, field, obj, Value}
use bke_worker.Js.Integer.{pos, ℤ}
use bke_worker.Protocol.Patterns.{is_worker_id}
use bke_worker.Prelude.{
  false, ltb, ◌||◌, ◌&&◌, not, take, Option, if◌then◌else◌, ℕ, Bool, none, some,
}

-- What `handleGitHubWebhook` reads of its request. `declared_length` is the number in the header
-- `Content-Length`, rounded up, and `none` if it is not finite; a header that is missing is the
-- empty text; the payload is `null` if the body is no JSON.
pub record Webhook : Type 0 where
  pub secret_configured : Bool
  pub delivery_id : Text
  pub event_name : Text
  pub declared_length : Option ℤ
  pub byte_length : ℕ
  pub signature_valid : Bool
  pub payload : Value

-- What `handleGitHubAppInstallToken` meets: whether the header names a bearer, and the message of
-- the error that was thrown, `none` if a token was minted.
pub record TokenRequest : Type 0 where
  pub has_bearer : Bool
  pub broker_error : Option Text

-- A request. `bearer_matches` is `relayBearerMatches` for its header and the configured token; the
-- socket and its id are made when the object accepts it; `assignments` is GitHub's answer for a
-- worker.
pub record HttpRequest : Type 0 where
  pub method : Text
  pub pathname : Text
  pub webhook : Webhook
  pub token_request : TokenRequest
  pub token_configured : Bool
  pub bearer_matches : Text → Bool
  pub is_websocket : Bool
  pub connection_id : Text
  pub handle : ℕ
  pub assignments : Text → Assignments

-- The responses, by the code in their body.
pub data HttpAnswer : Type 0 where
  webhook_secret_unconfigured github_payload_too_large github_signature_invalid : HttpAnswer
  ping ignored_event github_payload_invalid : HttpAnswer
  not_routed : Route → HttpAnswer
  relayed : (worker_id : Text) → Wake → Reply → HttpAnswer
  actions_oidc_required token_minted : HttpAnswer
  broker_failed : (error : Text) → HttpAnswer
  worker_id_invalid relay_token_unconfigured relay_unauthorized : HttpAnswer
  websocket_upgrade_required : HttpAnswer
  from_session : Reply → HttpAnswer
  method_not_allowed recovery_path_invalid not_found : HttpAnswer
  uri_malformed : HttpAnswer

abbrev pub max_webhook_bytes : ℕ
max_webhook_bytes = 1048576

-- The objects by the worker's id: `idFromName` gives one object for one name.
abbrev pub Sessions : Type 0
Sessions = Text → Session

unfoldable pub put_session : Sessions → Text → Session → Sessions
put_session sessions worker_id s id = if text_eq worker_id id then s else sessions id

-- `stub.fetch`: the object of this id takes the request, with its id in the header.
unfoldable pub stub_fetch : Sessions → Text → Request → Sessions × Reply
stub_fetch sessions worker_id request =
    let (s, reply) = fetch (sessions worker_id) worker_id request in
    (put_session sessions worker_id s, reply)

-- The declared length is too large.
unfoldable pub is_declared_too_large : Option ℤ → Bool
is_declared_too_large (some (pos n)) = ltb max_webhook_bytes n
is_declared_too_large other = false

unfoldable pub answer_with : (Reply → HttpAnswer) → Sessions × Reply → Sessions × HttpAnswer
answer_with answer (sessions, reply) = (sessions, answer reply)

-- From the routing on.
unfoldable pub relay_route : Sessions → Route → Sessions × HttpAnswer
relay_route sessions (routed worker_id wake) =
    answer_with (relayed worker_id wake)
      (stub_fetch sessions worker_id (dispatch_request (wake_value wake)))
relay_route sessions route = (sessions, not_routed route)

unfoldable pub handle_github_webhook : (Text → Text) → Sessions → Webhook → Sessions × HttpAnswer
handle_github_webhook lower sessions w =
    if not w.secret_configured
    then (sessions, webhook_secret_unconfigured)
    else if is_declared_too_large w.declared_length || ltb max_webhook_bytes w.byte_length
    then (sessions, github_payload_too_large)
    else if not w.signature_valid
    then (sessions, github_signature_invalid)
    else if text_eq w.event_name (text "ping")
    then (sessions, ping)
    else if not (text_eq w.event_name (text "pull_request"))
    then (sessions, ignored_event)
    else if same_value w.payload null
    then (sessions, github_payload_invalid)
    else relay_route sessions (route_github_pull_request lower w.payload (str w.delivery_id))

unfoldable pub handle_install_token : TokenRequest → HttpAnswer
handle_install_token t =
    if not t.has_bearer
    then actions_oidc_required
    else elim t.broker_error [ none ↦ token_minted | some error ↦ broker_failed error ]

-- The body of the request to the object: `JSON.stringify({ worker_id: workerId })`
unfoldable pub recovery_body : Text → Value
recovery_body worker_id = obj (field (text "worker_id") (str worker_id) end)

unfoldable pub handle_relay_recovery : Sessions → HttpRequest → Text → Sessions × HttpAnswer
handle_relay_recovery sessions r worker_id =
    if not (is_worker_id worker_id)
    then (sessions, worker_id_invalid)
    else if not r.token_configured
    then (sessions, relay_token_unconfigured)
    else if not (r.bearer_matches worker_id)
    then (sessions, relay_unauthorized)
    else answer_with from_session (
        stub_fetch sessions worker_id
          (recover_request (recovery_body worker_id) (r.assignments worker_id)))

-- The object checks the header again, by the same token.
unfoldable pub connect_for : HttpRequest → Text → Connect
connect_for r worker_id = record {
  authorized = r.token_configured && r.bearer_matches worker_id;
  is_websocket = r.is_websocket;
  connection_id = r.connection_id;
  handle = r.handle;
}

unfoldable pub handle_relay_upgrade : Sessions → HttpRequest → Text → Sessions × HttpAnswer
handle_relay_upgrade sessions r worker_id =
    if not (is_worker_id worker_id)
    then (sessions, worker_id_invalid)
    else if not r.token_configured
    then (sessions, relay_token_unconfigured)
    else if not (r.bearer_matches worker_id)
    then (sessions, relay_unauthorized)
    else if not r.is_websocket
    then (sessions, websocket_upgrade_required)
    else answer_with from_session
        (stub_fetch sessions worker_id (connect_request (connect_for r worker_id)))

-- A path that names a worker and nothing more.
unfoldable pub serve_worker_path : Sessions → HttpRequest → Text → Sessions × HttpAnswer
serve_worker_path sessions r worker_id =
    if ends_with r.pathname (text "/recover")
    then (sessions, recovery_path_invalid)
    else if not (text_eq r.method (text "GET"))
    then (sessions, method_not_allowed)
    else handle_relay_upgrade sessions r worker_id

-- A path that asks for a recovery, by the part that names the worker. A part that does not decode
-- throws.
unfoldable pub serve_recovery_path :
    (Text → Option Text) → Sessions → HttpRequest → Text → Sessions × HttpAnswer
serve_recovery_path decode sessions r part = elim (decode part) [
  | none ↦ (sessions, uri_malformed)
  | some worker_id ↦
      if not (text_eq r.method (text "POST"))
      then (sessions, method_not_allowed)
      else handle_relay_recovery sessions r worker_id
]

-- Every other path.
unfoldable pub serve_relay_path :
    (Text → Option Text) → Sessions → HttpRequest → Sessions × HttpAnswer
serve_relay_path decode sessions r = elim (relay_path_worker_id decode r.pathname) [
  | some worker_id ↦ serve_worker_path sessions r worker_id
  | none ↦ elim (recovery_match r.pathname) [
    | none ↦ (sessions, not_found)
    | some part ↦ serve_recovery_path decode sessions r part
  ]
]

-- The default `fetch`. `lower` is `String.prototype.toLowerCase`.
unfoldable pub serve_http :
    (Text → Text) → (Text → Option Text) → Sessions → HttpRequest → Sessions × HttpAnswer
serve_http lower decode sessions r =
    if text_eq r.pathname (text "/webhooks/github")
    then (if text_eq r.method (text "POST")
        then handle_github_webhook lower sessions r.webhook
        else (sessions, method_not_allowed))
    else if text_eq r.pathname (text "/github/app/install-token")
    then (
      sessions,
      if text_eq r.method (text "POST")
          then handle_install_token r.token_request
          else method_not_allowed,
    )
    else serve_relay_path decode sessions r
