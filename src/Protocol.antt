-- ===== src/Protocol.antt =====
-- The wire protocol of the relay, `cloudflare-relay/src/protocol.js`: its identifiers, its frames
-- with their validators, the routing of GitHub pull request events, and the recovery plan with its
-- list of assignments.
pub mod Patterns
pub mod Wake
pub mod Frames
pub mod Active
pub mod Recovery
pub mod Routing
pub mod Assignments
mod Tests
