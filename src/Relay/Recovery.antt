-- ===== src/Relay/Recovery.antt =====
-- What the recovery path of `cloudflare-relay/src/index.js` comes to: the default `fetch` calls
-- `handleRelayRecovery`, which asks the worker's object, and `recover` there answers.
use bke_worker.Protocol.Frames.{validate_recovery_request}
use bke_worker.Session.Recover.{Assignments, recover}
use bke_worker.Relay.{
  from_session, put_session, HttpRequest, Sessions, answer_with, stub_fetch, recovery_body,
  handle_relay_recovery, serve_http, serve_recovery_path, serve_relay_path,
}
use bke_worker.Session.State.{Session}
use bke_worker.Text.{includes, split_at, starts_with, text, text_eq, Text}
use bke_worker.Session.Events.{fetch, recover_request, route_request}
use bke_worker.Session.Reply.{Reply, recovery_request_invalid}
use bke_worker.Protocol.Patterns.{is_worker_id}
use bke_worker.Session.Consistency.Identity.{fetch-own, IsOwn}
use bke_worker.Js.Keys.{exact_keys}
use bke_worker.Prelude.{
  [], ◌++◌, ◌==◌, ◌∷◌, ap, ◌∙◌, Option, arith, every, false, ◌≡◌, none, refl, true, some, ℕ,
}
use bke_worker.Protocol.Patterns.{is_delivery_unit}
use bke_worker.Protocol.Recovery.Wakes.{worker_id-delivery}
use bke_worker.Relay.Paths.{recovery_match, relay_path_worker_id, relay_remainder}
use bke_worker.Text.Equality.{text_eq_refl}

-- The body that `handleRelayRecovery` sends is no recovery request to the object.
recovery_body-refused : (id : Text) → validate_recovery_request (recovery_body id) id ≡ false
unfolding validate_recovery_request recovery_body exact_keys text
recovery_body-refused id = refl

recover-refused :
    (s : Session) (id : Text) (assignments : Assignments)
    → recover s id (recovery_body id) assignments ≡ (s, recovery_request_invalid)
unfolding recover
recover-refused s id assignments = rw (recovery_body-refused id, recover) refl

-- The object of a valid worker stores the worker's id, and refuses.
pub recovery-refused :
    (s : Session) (id : Text) (assignments : Assignments)
    → is_worker_id id ≡ true
    → IsOwn id s
    → fetch s id (recover_request (recovery_body id) assignments)
      ≡ (record s { identity = some id }, recovery_request_invalid)
unfolding route_request
recovery-refused s id assignments valid own =
    fetch-own s id (recover_request (recovery_body id) assignments) valid own
    ∙ recover-refused (record s { identity = some id }) id assignments

handle_relay_recovery-refused :
    (sessions : Sessions) (r : HttpRequest) (id : Text)
    → is_worker_id id ≡ true
    → r.token_configured ≡ true
    → r.bearer_matches id ≡ true
    → IsOwn id (sessions id)
    → handle_relay_recovery sessions r id ≡ (
      put_session sessions id (record (sessions id) { identity = some id }),
      from_session recovery_request_invalid,
    )
unfolding handle_relay_recovery stub_fetch answer_with
handle_relay_recovery-refused sessions r id valid token bearer own =
    rw (valid, token, bearer)
      (ap (λ (a : Session × Reply). (put_session sessions id a.0, from_session a.1))
        (recovery-refused (sessions id) id (r.assignments id) valid own))

-- The path of a worker's recovery.
abbrev pub path_for : Text → Text
path_for id = text "/relay/" ++ (id ++ text "/recover")

includes-slash : (before after : Text) → includes (before ++ (b'/' ∷ after)) (text "/") ≡ true
unfolding includes starts_with text
includes-slash [] after = refl
includes-slash (c ∷ before) after = ground (arith, includes-slash before after)

delivery-no_slash : (c : ℕ) → is_delivery_unit c ≡ true → (c == b'/') ≡ false
unfolding is_delivery_unit
delivery-no_slash c h = ground arith

split_at-slash :
    (before after : Text)
    → every is_delivery_unit before ≡ true
    → split_at b'/' (before ++ (b'/' ∷ after)) ≡ some (before, after)
unfolding split_at every
split_at-slash [] after h = refl
split_at-slash (c ∷ before) after h =
    ground (arith, delivery-no_slash c, split_at-slash before after)

relay_remainder-path : (id : Text) → relay_remainder (path_for id) ≡ some (id ++ text "/recover")
unfolding relay_remainder starts_with text
relay_remainder-path id = refl

relay_path_worker_id-path :
    (decode : Text → Option Text) (id : Text) → relay_path_worker_id decode (path_for id) ≡ none
unfolding relay_path_worker_id text
relay_path_worker_id-path decode id =
    ground (arith, relay_remainder-path id, includes-slash id (text "recover"))

worker_id-present : (id : Text) → is_worker_id id ≡ true → text_eq id [] ≡ false
unfolding is_worker_id text_eq
worker_id-present [] h = cc
worker_id-present (c ∷ t) h = refl

recovery_match-path : (id : Text) → is_worker_id id ≡ true → recovery_match (path_for id) ≡ some id
unfolding recovery_match text
recovery_match-path id valid = ground (
  arith,
  relay_remainder-path id,
  split_at-slash id (text "recover") (worker_id-delivery id valid),
  worker_id-present id valid,
  text_eq_refl (text "recover"),
)

other_paths :
    (id : Text)
    → (text_eq (path_for id) (text "/webhooks/github") ≡ false)
      × (text_eq (path_for id) (text "/github/app/install-token") ≡ false)
unfolding text_eq text
other_paths id = (refl, refl)

serve_relay_path-recovery :
    (decode : Text → Option Text) (sessions : Sessions) (r : HttpRequest) (id : Text)
    → r.method ≡ text "POST"
    → r.pathname ≡ path_for id
    → is_worker_id id ≡ true
    → decode id ≡ some id
    → serve_relay_path decode sessions r ≡ handle_relay_recovery sessions r id
unfolding serve_relay_path serve_recovery_path
serve_relay_path-recovery decode sessions r id post path valid decodes =
    let no_worker =
      ap (λ p. relay_path_worker_id decode p) path ∙ relay_path_worker_id-path decode id in
    let matches = ap recovery_match path ∙ recovery_match-path id valid in
    let posted = ap (λ m. text_eq m (text "POST")) post ∙ text_eq_refl (text "POST") in
    rw (no_worker, matches, decodes, posted, serve_relay_path, serve_recovery_path) refl

-- A `POST` of `/relay/<worker_id>/recover`, for a valid worker id that decodes to itself, with the
-- worker's bearer token, is refused by the worker's object: the answer of the relay is
-- `RECOVERY_REQUEST_INVALID`, whatever GitHub would say of the worker's assignments, and the
-- objects differ from before at most in the id that this one stores. The object stored that id
-- before, or none.
pub serve_http-refused :
    (lower : Text → Text) (decode : Text → Option Text) (sessions : Sessions) (r : HttpRequest)
    (id : Text)
    → r.method ≡ text "POST"
    → r.pathname ≡ path_for id
    → is_worker_id id ≡ true
    → decode id ≡ some id
    → r.token_configured ≡ true
    → r.bearer_matches id ≡ true
    → IsOwn id (sessions id)
    → serve_http lower decode sessions r ≡ (
      put_session sessions id (record (sessions id) { identity = some id }),
      from_session recovery_request_invalid,
    )
unfolding serve_http
serve_http-refused lower decode sessions r id post path valid decodes token bearer own =
    let (no_webhook, no_token) = other_paths id in
    let no_webhook' = ap (λ p. text_eq p (text "/webhooks/github")) path ∙ no_webhook in
    let no_token' = ap (λ p. text_eq p (text "/github/app/install-token")) path ∙ no_token in
    rw (no_webhook', no_token')
      (serve_relay_path-recovery decode sessions r id post path valid decodes
        ∙ handle_relay_recovery-refused sessions r id valid token bearer own)
