-- ===== src/Relay/Delivery.antt =====
-- From a signed event to the worker's object: `handleGitHubWebhook` of
-- `cloudflare-relay/src/index.js` with the routing and the object's `dispatch`.
use bke_worker.Relay.{
  max_webhook_bytes, relayed, stub_fetch, put_session, answer_with, is_declared_too_large,
  handle_github_webhook, relay_route, HttpAnswer, Webhook, Sessions,
}
use bke_worker.Text.{text_eq, text, Text}
use bke_worker.Protocol.Routing.{routed, route_github_pull_request}
use bke_worker.Protocol.Wake.{wake_value, validate_wake, Wake}
use bke_worker.Js.Value.{bool, str, null, Value, is_object, same_value}
use bke_worker.Session.Dispatch.{dispatch, dispatch_wake}
use bke_worker.Session.Events.{dispatch_request, route_request}
use bke_worker.Session.Consistency.Identity.{fetch-own, IsOwn}
use bke_worker.Protocol.Patterns.{is_worker_id}
use bke_worker.Session.State.{Session}
use bke_worker.Session.Reply.{Reply}
use bke_worker.Protocol.Wake.Reading.{validate_wake-wake_value, read_wake-wake_value}
use bke_worker.Protocol.Routing.Routed.{route_validates}
use bke_worker.Prelude.{ltb, subst, ◌∙◌, ap, arith, ◌≤◌, false, ◌≡◌, refl, true, some}

-- An event with a null payload is not routed.
routed-payload :
    (lower : Text → Text) (delivery_id payload : Value) (id : Text) (wake : Wake)
    → route_github_pull_request lower payload delivery_id ≡ routed id wake
    → same_value payload null ≡ false
unfolding route_github_pull_request same_value is_object
routed-payload lower delivery_id null id wake h = ground arith
routed-payload lower delivery_id (bool true) id wake h = refl
routed-payload lower delivery_id (bool false) id wake h = refl
routed-payload lower delivery_id payload id wake h = refl

-- What `dispatch` does to the object of a worker that stores its id, after its check of the wake.
unfoldable pub delivered : Sessions → Text → Wake → Sessions × HttpAnswer
delivered sessions id wake =
    let (s, reply) = dispatch_wake (record (sessions id) { identity = some id }) wake in
    (put_session sessions id s, relayed id wake reply)

event_lem :
    (event_name : Text)
    → event_name ≡ text "pull_request"
    → (text_eq event_name (text "ping") ≡ false) × (text_eq event_name (text "pull_request") ≡ true)
unfolding text_eq text
event_lem event_name e = rw e (refl, refl)

module _ (lower : Text → Text) (sessions : Sessions) (w : Webhook) (id : Text) (wake : Wake) where
  relay_route-delivered :
      validate_wake (wake_value wake) (some id) ≡ true
      → is_worker_id id ≡ true
      → IsOwn id (sessions id)
      → relay_route sessions (routed id wake) ≡ delivered sessions id wake
  unfolding relay_route answer_with stub_fetch delivered route_request dispatch
  relay_route-delivered accepted valid own =
      let e = fetch-own (sessions id) id (dispatch_request (wake_value wake)) valid own in
      ap (λ (a : Session × Reply). (put_session sessions id a.0, relayed id wake a.1))
        (e ∙ (rw (accepted, read_wake-wake_value wake) refl))

  -- A signed event of a pull request, of at most 1048576 bytes and of no larger declared length,
  -- that is routed to a worker reaches the object of that worker and no other. That object takes
  -- the very wake that the routing made, by the rules of `dispatch`: its checks on the worker's id
  -- and on the wake both pass. The object stored that id before, or none.
  pub handle_github_webhook-delivered :
      w.secret_configured ≡ true
      → is_declared_too_large w.declared_length ≡ false
      → w.byte_length ≤ max_webhook_bytes
      → w.signature_valid ≡ true
      → w.event_name ≡ text "pull_request"
      → route_github_pull_request lower w.payload (str w.delivery_id) ≡ routed id wake
      → IsOwn id (sessions id)
      → handle_github_webhook lower sessions w ≡ delivered sessions id wake
  unfolding handle_github_webhook
  handle_github_webhook-delivered secret declared small signed event route own =
      let accepted = route_validates lower w.payload (str w.delivery_id) id wake route in
      let present = routed-payload lower (str w.delivery_id) w.payload id wake route in
      let (in_order, addressed) = (validate_wake-wake_value wake id).0 accepted in
      let valid = subst (λ i. is_worker_id i ≡ true) addressed in_order.worker_ok in
      let reached = relay_route-delivered accepted valid own in
      let within : ltb max_webhook_bytes w.byte_length ≡ false = ground arith in
      let (not_ping, of_pull_request) = event_lem w.event_name event in
      rw (secret, declared, within, signed, not_ping, of_pull_request, present, route) reached
