-- ===== src/Session.antt =====
-- One worker's Durable Object: the class `WorkerSession` of `cloudflare-relay/src/index.js`.
pub mod State
pub mod Sockets
pub mod Reply
pub mod Dispatch
pub mod Recover
pub mod Messages
pub mod Events
pub mod Consistency
pub mod Fixtures
mod Tests
