-- ===== src/Session/Consistency.antt =====
-- The invariant of a `WorkerSession`'s storage, kept by every event.
pub mod Work
pub mod Identity
pub mod Frames
pub mod Requests
pub mod Steps
pub mod Recent
pub mod Window
