-- ===== src/Protocol/Routing/Tests.antt =====
-- The theorems about routing at an event that edits a marker into a pull request's body.
use bke_worker.Protocol.Routing.Fixtures.{
  worker, delivery, payload, wake, lower_ascii, payload_routed,
}
use bke_worker.Prelude.{true, ◌≡◌, some}
use bke_worker.Protocol.Wake.{wake_value, validate_wake}
use bke_worker.Protocol.Routing.Routed.{route_validates}
use bke_worker.Protocol.Routing.Fixtures.{payload_routed, delivery, lower_ascii}

route_validates_example : validate_wake (wake_value wake) (some worker) ≡ true
route_validates_example = route_validates lower_ascii payload delivery worker wake payload_routed
