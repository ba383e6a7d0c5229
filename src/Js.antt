-- ===== src/Js.antt =====
-- JavaScript values as the relay meets them: what `JSON.parse` returns and what storage holds.
-- `cloudflare-relay/src/protocol.js` isObject, exactKeys, and the tests on values it writes inline.
pub mod Integer
pub mod Value
pub mod Keys
pub mod Sorting
pub mod Reads
