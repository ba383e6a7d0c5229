-- ===== src/Target.antt =====
-- The tab that the owner selected: `createChatGptTargetBinding` of
-- `browser-extension/src/target-binding.ts`. A call stops at each `await`; a step resumes it with
-- the answer. Between two steps of a call anything else may run.
pub mod Page
pub mod State
pub mod Selecting
pub mod Proving
pub mod Calls
