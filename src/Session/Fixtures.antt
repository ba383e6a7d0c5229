-- ===== src/Session/Fixtures.antt =====
-- Concrete wakes, sockets and sessions for the tests.
use bke_worker.Prelude.{ℕ, true, false, [], ◌∷◌, List, none, some}
use bke_worker.Text.{Text, text}
use bke_worker.Js.Integer.{pos}
use bke_worker.Js.Value.{Value, num, str, obj, end, field}
use bke_worker.Protocol.Wake.{Wake, wake_value}
use bke_worker.Protocol.Active.{Phase}
use bke_worker.Protocol.Recovery.{Assignment}
use bke_worker.Session.State.{Session, Socket, Attachment}
use bke_worker.Session.Events.{
  Event, Connect, fetched, connect_request, dispatch_request, recover_request, message,
}
use bke_worker.Session.Recover.{found}
use bke_worker.Session.Messages.{frame}

abbrev pub worker : Text
worker = text "android-worker-a"

abbrev pub head : Text
head = text "0123456789abcdef0123456789abcdef01234567"

abbrev pub wake_of : ℕ → Text → Text → Wake
wake_of number reason delivery = record {
  worker_id = worker;
  repo = text "jan2xo/bke-worker";
  pr_number = number;
  expected_head_sha = head;
  reason = reason;
  delivery_id = delivery;
}

abbrev pub opened : Wake
opened = wake_of 7 (text "github_pull_request_opened") (text "d1")

abbrev pub edited : Wake
edited = wake_of 7 (text "github_pull_request_continuation") (text "d2")

abbrev pub foreign : Wake
foreign = wake_of 8 (text "github_pull_request_opened") (text "d3")

abbrev pub register_frame : Value
register_frame = obj (
    field (text "protocol") (num (pos 1)) (
      field (text "type") (str (text "register"))
        (field (text "worker_id") (str worker) (field (text "session_id") (str (text "tab")) end))))

abbrev pub ack_frame : Text → Text → Value
ack_frame delivery state = obj (
    field (text "protocol") (num (pos 1)) (
      field (text "type") (str (text "ack")) (
        field (text "worker_id") (str worker)
          (field (text "delivery_id") (str delivery) (field (text "state") (str state) end)))))

abbrev pub recover_frame : Value
recover_frame = obj (
    field (text "protocol") (num (pos 1))
      (field (text "type") (str (text "recover")) (field (text "worker_id") (str worker) end)))

abbrev pub connection_one : Connect
connection_one = record {
  authorized = true;
  is_websocket = true;
  connection_id = text "c-1";
  handle = 1;
}

abbrev pub assignment : Assignment
assignment = record {
  worker_id = worker;
  number = 7;
  head_ref = text "bke/task-7";
  head_sha = head;
}

abbrev pub elsewhere : Assignment
elsewhere = record { worker_id = worker; number = 9; head_ref = text "bke/task-9"; head_sha = head }

abbrev pub attachment_one : Attachment
attachment_one = record {
  worker_id = worker;
  connection_id = text "c-1";
  registered = true;
  session_id = some (text "tab");
}

abbrev pub unregistered_two : Attachment
unregistered_two = record {
  worker_id = worker;
  connection_id = text "c-2";
  registered = false;
  session_id = none;
}

abbrev pub socket_one : Socket
socket_one = record { handle = 1; attachment = some attachment_one; frames = []; closed = [] }

abbrev pub socket_two : Socket
socket_two = record { handle = 2; attachment = some unregistered_two; frames = []; closed = [] }

-- A wake in a phase, with one registered browser and one that has only connected.
abbrev pub session_in : Phase → Session
session_in phase = record {
  identity = some worker;
  active = some (record { wake = opened; phase = phase });
  queued = none;
  recent = text "d1" ∷ [];
  connection = some (text "c-1");
  sockets = socket_one ∷ socket_two ∷ [];
}

-- A browser connects and registers, a wake arrives and is accepted, another waits behind it, the
-- first is completed, and the worker asks for its assignment.
abbrev pub a_day : List Event
a_day =
    fetched worker (connect_request connection_one)
    ∷ message 1 (frame register_frame)
    ∷ fetched worker (dispatch_request (wake_value opened))
    ∷ message 1 (frame (ack_frame (text "d1") (text "accepted")))
    ∷ fetched worker
        (dispatch_request (wake_value (wake_of 7 (text "github_pull_request_edited") (text "d4"))))
    ∷ message 1 (frame (ack_frame (text "d1") (text "completed")))
    ∷ fetched worker (recover_request recover_frame (found (assignment ∷ [])))
    ∷ []
