-- ===== src/Retirement.antt =====
-- Retirement of a worker: the dormant modules `cloudflare-relay/src/relay-retirement-*.js`. The
-- fields of a result that are false in every result are left out.
pub mod Membership
pub mod Fence
pub mod Witness
pub mod Kernel
pub mod RouteFence
mod Tests
