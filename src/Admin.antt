-- ===== src/Admin.antt =====
-- The private broker of the admin tools: `cloudflare-relay/src/admin-broker.js`.
pub mod Broker
pub mod Assignments
pub mod Inventory
mod Tests
