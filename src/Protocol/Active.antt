-- ===== src/Protocol/Active.antt =====
-- What the session keeps of the wake it works on: `{wake, phase}` of
-- `cloudflare-relay/src/index.js`, whose phases are those of the code's `phase:` values.
use bke_worker.Prelude.{Bool, true, false}
use bke_worker.Protocol.Wake.{Wake}

pub data Phase : Type 0 where
  queued sent deferred accepted recovery_required : Phase

-- `phase === "queued"`
unfoldable pub is_queued : Phase → Bool
is_queued queued = true
is_queued phase = false

pub record Active : Type 0 where
  pub wake : Wake
  pub phase : Phase
