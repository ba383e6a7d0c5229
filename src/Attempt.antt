-- ===== src/Attempt.antt =====
-- The gates before a first message to a new conversation:
-- `browser-extension/src/bootstrap-fence.ts`
-- and `browser-extension/src/fresh-attempt-gate.ts`, which read unknown values and grant nothing.
pub mod Platform
pub mod History
pub mod Times
pub mod Remembered
pub mod Bootstrap
pub mod Fresh
mod Fixtures
