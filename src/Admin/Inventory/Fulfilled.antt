-- ===== src/Admin/Inventory/Fulfilled.antt =====
-- From the inventory of `cloudflare-relay/src/admin-assignment-inventory.js` to the snapshot that
-- `cloudflare-relay/src/admin-broker.js` hands out.
use bke_worker.Prelude.{arith, [], refl, List, subst, true, map, inr, some, ◌≡◌, ℕ}
use bke_worker.Admin.Inventory.{Fetched, Request}
use bke_worker.Admin.Assignments.{project, safe_assignment, fulfill_admin_assignments}
use bke_worker.Js.Value.{number_of, text_or_empty, get, elements, Value}
use bke_worker.Admin.Inventory.Listing.{list_installed_worker_assignments}
use bke_worker.Text.{text}
use bke_worker.Admin.Broker.{is_purpose, is_enabled}
use bke_worker.Admin.Inventory.Ready.{list_installed-IsListed, IsListed}
use bke_worker.Admin.Assignments.Projected.{project_iff}
use bke_worker.Admin.Inventory.Grant.{Surroundings}

module _ (sur : Surroundings) (ask : ℕ → Request → Fetched) where
  -- Every inventory that the code returns is handed out by the broker, with all its entries and in
  -- their order, to a request for it, where both gates are enabled.
  pub listed_fulfilled :
      (env gates request v : Value)
      → list_installed_worker_assignments sur ask env ≡ some (inr v)
      → is_enabled gates (text "BKE_ADMIN_BROKER_ENABLED") ≡ true
      → is_enabled gates (text "BKE_ADMIN_PR_INVENTORY_ENABLED") ≡ true
      → is_purpose request (text "admin_worker_assignment_inventory") ≡ true
      → fulfill_admin_assignments sur.lower sur.to_text gates request v
        ≡ inr (record {
          installation_id = text_or_empty (get v (text "installation_id"));
          total_visible_repositories = number_of (get v (text "total_visible_repositories"));
          enumerated_open_pull_requests = number_of (get v (text "enumerated_open_pull_requests"));
          worker_assignments = map safe_assignment (elements (get v (text "worker_assignments")));
        })
  unfolding fulfill_admin_assignments
  listed_fulfilled env gates request v h broker inventory purpose =
      let listed : IsListed sur.lower sur.to_text (some (inr v)) =
        subst (IsListed sur.lower sur.to_text) h (list_installed-IsListed sur ask env) in
      let entries : List Value = elements (get v (text "worker_assignments")) in
      let projected : project sur.lower sur.to_text [] [] entries
          ≡ some (map safe_assignment entries) =
        (project_iff sur.lower sur.to_text entries (map safe_assignment entries)).1
          (listed.all_safe, listed.keys, listed.labels, refl) in
      let snapshot = listed.snapshot in ground arith
