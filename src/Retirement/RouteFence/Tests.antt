-- ===== src/Retirement/RouteFence/Tests.antt =====
-- The theorem about a route's fence at a worker whose fence was staged.
use bke_worker.Prelude.{◌≡◌}
use bke_worker.Js.Value.{str}
use bke_worker.Retirement.Tests.{stored, request, request_taken, stored_staged}
use bke_worker.Retirement.Kernel.{canonical_of, in_transaction}
use bke_worker.Text.{text}
use bke_worker.Retirement.RouteFence.Staged.{staged-fenced}
use bke_worker.Retirement.RouteFence.{inspect_inside_transaction, worker_retired}

staged-fenced_example :
    inspect_inside_transaction
      (in_transaction stored (canonical_of request)).1
      (record { target = (canonical_of request).target; operation = str (text "dispatch") })
    ≡ worker_retired (str (text "dispatch"))
staged-fenced_example =
    staged-fenced request (canonical_of request) stored (str (text "dispatch")) request_taken
      stored_staged
