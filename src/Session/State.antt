-- ===== src/Session/State.antt =====
-- What a `WorkerSession` keeps: its storage keys, and the sockets that the runtime holds for it.
use bke_worker.Prelude.{ℕ, Bool, List, Option}
use bke_worker.Text.{Text}
use bke_worker.Protocol.Wake.{Wake}
use bke_worker.Protocol.Active.{Active}

-- The object that `serializeAttachment` stores with a socket.
pub record Attachment : Type 0 where
  pub worker_id : Text
  pub connection_id : Text
  pub registered : Bool
  pub session_id : Option Text

-- A socket: which object it is, its attachment, the wakes that were sent over it, oldest first,
-- and the codes that it was closed with.
pub record Socket : Type 0 where
  pub handle : ℕ
  pub attachment : Option Attachment
  pub frames : List Wake
  pub closed : List ℕ

-- WORKER_ID_KEY, ACTIVE_WAKE_KEY, QUEUED_WAKE_KEY, RECENT_DELIVERIES_KEY (a missing key reads as
-- the empty list), ACTIVE_CONNECTION_KEY, and `ctx.getWebSockets()`.
pub record Session : Type 0 where
  pub identity : Option Text
  pub active : Option Active
  pub queued : Option Wake
  pub recent : List Text
  pub connection : Option Text
  pub sockets : List Socket
