-- ===== src/Session/Events.antt =====
-- The entry points of a `WorkerSession` and its runs: `fetch`, `ensureIdentity` and `connect` of
-- `cloudflare-relay/src/index.js`. The runtime lets no other event of the object in while a handler
-- waits for storage, so an event is one step.
pub mod Holding
use bke_worker.Session.Dispatch.{
  dispatch_wake, dispatch_busy, dispatch_idle, dispatch_remembered, dispatch_same_pr,
  remember_delivery, put_queued, replace_active, send_then,
}
use bke_worker.Session.Recover.{recover_with, apply_plan}
use bke_worker.Protocol.Recovery.{plan_recovery, plan_one, same_active_pr, recovery_wake}
use bke_worker.Protocol.Active.{is_queued}
use bke_worker.Protocol.Wake.{validate_wake, read_wake, wake_value}
use bke_worker.Protocol.Frames.{
  validate_register, validate_ack, validate_recovery_request, read_ack, read_session_id,
}
use bke_worker.Js.Value.{
  get, is_text, is_num, is_text_where, is_positive_integer, text_or_empty, number_of,
}
use bke_worker.Js.Keys.{exact_keys}
use bke_worker.Text.Decimal.{decimal}
use bke_worker.Text.{text}
use bke_worker.Protocol.Patterns.{is_sha, is_delivery_id, is_reason, is_control_repository}
use bke_worker.Session.Sockets.{
  is_registered, is_holder, update_socket, push_frame, push_close, attach, close_socket,
  authoritative_socket, deliver, send_active_if_safe, connection_of, same_connection,
  clear_connection_if_authoritative,
}
use bke_worker.Session.Messages.{
  first_frame, later_frame, holds_connection, register, close_others, handle_ack, settle,
  refuse_unknown, promote_queued_wake,
}
use bke_worker.Prelude.{
  take_last, ℕ, Bool, true, false, List, [], ◌∷◌, ◌++◌, none, some, ◌==◌, not, if◌then◌else◌, keep,
  find_first,
}
use bke_worker.Text.{Text, text_eq}
use bke_worker.Js.Value.{Value}
use bke_worker.Protocol.Patterns.{is_worker_id}
use bke_worker.Session.State.{Socket, Session}
use bke_worker.Session.Reply.{
  Reply, worker_id_invalid, worker_id_conflict, not_found, relay_unauthorized,
  websocket_upgrade_required, switching_protocols,
}
use bke_worker.Session.Dispatch.{dispatch}
use bke_worker.Session.Recover.{Assignments, recover}
use bke_worker.Session.Messages.{Message, web_socket_message, web_socket_close, web_socket_error}

-- What `connect` asks of its surroundings: whether a token key is configured and
-- `relayBearerMatches` accepts the header, whether the upgrade header says `websocket`, the
-- identifier from `crypto.randomUUID()`, and the new socket.
pub record Connect : Type 0 where
  pub authorized : Bool
  pub is_websocket : Bool
  pub connection_id : Text
  pub handle : ℕ

-- A request by its path, with what its handler reads of it.
pub data Request : Type 0 where
  connect_request : Connect → Request
  dispatch_request : Value → Request
  recover_request : Value → Assignments → Request
  other_request : Request

-- The socket that `connect` accepts.
unfoldable pub new_socket : Text → Connect → Socket
new_socket worker_id c = record {
  handle = c.handle;
  attachment = some (record {
    worker_id = worker_id;
    connection_id = c.connection_id;
    registered = false;
    session_id = none;
  });
  frames = [];
  closed = [];
}

unfoldable pub connect : Session → Text → Connect → Session × Reply
connect s worker_id c =
    if c.authorized
    then if c.is_websocket
      then (record s { sockets = s.sockets ++ new_socket worker_id c ∷ [] }, switching_protocols)
      else (s, websocket_upgrade_required)
    else (s, relay_unauthorized)

-- The state after, and whether the object may serve this worker.
unfoldable pub ensure_identity : Session → Text → Session × Bool
ensure_identity s worker_id = elim s.identity [
  | none ↦ (record s { identity = some worker_id }, true)
  | some existing ↦ (s, text_eq existing worker_id)
]

unfoldable pub route_request : Session → Text → Request → Session × Reply
route_request s worker_id (connect_request c) = connect s worker_id c
route_request s worker_id (dispatch_request value) = dispatch s worker_id value
route_request s worker_id (recover_request value assignments) =
    recover s worker_id value assignments
route_request s worker_id other_request = (s, not_found)

-- `fetch` after `ensureIdentity`.
unfoldable pub serve : Text → Request → Session × Bool → Session × Reply
serve worker_id request (s, true) = route_request s worker_id request
serve worker_id request (s, false) = (s, worker_id_conflict)

-- `worker_id` is the header `x-bke-worker-id`.
unfoldable pub fetch : Session → Text → Request → Session × Reply
fetch s worker_id request =
    if is_worker_id worker_id
    then serve worker_id request (ensure_identity s worker_id)
    else (s, worker_id_invalid)

-- What happens to the object. The runtime drops a socket from `getWebSockets()` after its end.
pub data Event : Type 0 where
  fetched : Text → Request → Event
  message : ℕ → Message → Event
  closed errored dropped : ℕ → Event

-- The handler of a socket's event, for a socket that the runtime holds.
unfoldable pub on_socket : Session → ℕ → (Socket → Session) → Session
on_socket s handle handler = elim (find_first (λ socket. socket.handle == handle) s.sockets) [
  | none ↦ s
  | some socket ↦ handler socket
]

unfoldable pub drop_socket : Session → ℕ → Session
drop_socket s handle = record s {
  sockets = keep (λ socket. not (socket.handle == handle)) s.sockets;
}

unfoldable pub step : Session → Event → Session
step s (fetched worker_id request) = (fetch s worker_id request).0
step s (message handle m) = on_socket s handle (λ socket. web_socket_message s socket m)
step s (closed handle) = on_socket s handle (web_socket_close s)
step s (errored handle) = on_socket s handle (web_socket_error s)
step s (dropped handle) = drop_socket s handle

-- An object before its first event.
abbrev pub new_session : Session
new_session = record {
  identity = none;
  active = none;
  queued = none;
  recent = [];
  connection = none;
  sockets = [];
}

-- The line opens every part of the object, so that a run computes.
unfoldable pub run : Session → List Event → Session
unfolding step fetch serve route_request ensure_identity connect new_socket on_socket drop_socket
    find_first keep dispatch dispatch_wake dispatch_busy dispatch_idle dispatch_remembered
    dispatch_same_pr remember_delivery put_queued replace_active send_then recover recover_with
    apply_plan plan_recovery plan_one same_active_pr recovery_wake web_socket_message first_frame
    later_frame holds_connection register close_others handle_ack settle refuse_unknown
    promote_queued_wake web_socket_close web_socket_error is_registered is_holder update_socket
    push_frame push_close attach close_socket authoritative_socket deliver send_active_if_safe
    connection_of same_connection clear_connection_if_authoritative is_queued validate_wake
    read_wake validate_register validate_ack validate_recovery_request read_ack read_session_id
    exact_keys get is_text is_num is_text_where is_positive_integer text_or_empty number_of
    is_worker_id is_sha is_delivery_id is_reason is_control_repository take_last wake_value text
    decimal
run s [] = s
run s (e ∷ es) = run (step s e) es
