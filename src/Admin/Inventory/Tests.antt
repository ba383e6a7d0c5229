-- ===== src/Admin/Inventory/Tests.antt =====
-- The inventory of one repository with two pull requests on two pages, of
-- `cloudflare-relay/src/admin-assignment-inventory.js`, and the theorems at it.
use bke_worker.Admin.Inventory.Listing.{
  finish, prepare, drain, query_batch, first_loop, first_job, sort_entries, insert_entry,
  is_not_after, inventory_value, list_installed_worker_assignments,
}
use bke_worker.Admin.Inventory.Grant.{
  access_token, is_token_info, installation_id, is_installation_info, signed, text_of, is_ttl,
  is_app_id, is_exact_grant, is_valid_bearer, is_bearer, is_printable, Surroundings,
}
use bke_worker.Text.{has_text, split_at, includes, starts_with, text_leb, text_eq, text, Text}
use bke_worker.Js.Value.{
  is_num, same_value, is_positive_safe, number_of, elements, is_array, fields_of, is_text_where,
  is_object, is_text, get_field, get, text_or_empty, nil, cons, end, arr, num, str, bool, field,
  Items, obj, Fields, Value,
}
use bke_worker.Protocol.Routing.Fixtures.{head, lower_ascii}
use bke_worker.Admin.Inventory.{
  fetch_json, json, safe_fetch, throws, response, Request, Fetched, Projected,
}
use bke_worker.Js.Integer.{negsuc, pos}
use bke_worker.Admin.Inventory.Ready.{list_installed-IsListed, IsListed}
use bke_worker.Admin.Inventory.Repositories.{
  list_repos, read_repos, is_repository_page, has_control, has_number, valid_repo,
}
use bke_worker.Admin.Inventory.Projecting.{
  add_nodes, add_node, claim_worker, item_of, pr_projection, has_all_labels, has_value,
  projected_with, worker_labels,
}
use bke_worker.Admin.Inventory.Paging.{
  after_query, add_pages, add_page, is_identical, is_page, after_page, may_continue, is_new_cursor,
  is_same_total, is_payload, has_length, asked_of, query_of, queried_from, declared_from, queried,
  declared,
}
use bke_worker.Protocol.Assignments.{is_truthy}
use bke_worker.Admin.Assignments.{
  safe_assignment, fulfill_admin_assignments, pull_request_key, is_commit, is_dotted, is_repo_name,
  is_count, is_installation_id,
}
use bke_worker.Protocol.Patterns.{
  is_sha, is_hex_unit, is_name_unit, is_worker_unit, is_lower_or_digit, is_worker_id, is_repo,
  is_run,
}
use bke_worker.Admin.Broker.{is_purpose, join_texts, joined_keys}
use bke_worker.Js.Keys.{insert_sorted, sort}
use bke_worker.Target.Page.{is_bool, is_string}
use bke_worker.Text.Decimal.{digits_from, decimal}
use bke_worker.Attempt.Platform.{has_properties}
use bke_worker.Admin.Inventory.Fulfilled.{listed_fulfilled}
use bke_worker.Prelude.{
  map, every, false, zero, suc, inr, true, if◌then◌else◌, some, ◌≡◌, ℕ, List, refl, ◌∷◌, [],
}

abbrev label_list : Text → Value
label_list name = obj (
    field (text "nodes") (arr (cons (obj (field (text "name") (str name) end)) nil))
      (field (text "pageInfo") (obj (field (text "hasNextPage") (bool false) end)) end))

abbrev node : ℕ → Text → Value
node n name = obj (
    field (text "number") (num (pos n)) (
      field (text "state") (str (text "open"))
        (field (text "headRefOid") (str head) (field (text "labels") (label_list name) end))))

-- One page of the repository's pull requests.
abbrev page : (info : Fields) → Items → Value
page info nodes = obj (
    field (text "data")
      (obj (
        field (text "r0")
          (obj (
            field (text "databaseId") (num (pos 1354026486)) (
              field (text "nameWithOwner") (str (text "jan2xo/bke-worker")) (
                field (text "pullRequests")
                  (obj (
                    field (text "totalCount") (num (pos 2))
                      (field (text "pageInfo") (obj info) (field (text "nodes") (arr nodes) end))))
                  end))))
          end))
      end)

abbrev installation_info : Value
installation_info = obj (
    field (text "id") (str (text "42")) (
      field (text "repository_selection") (str (text "all")) (
        field (text "permissions") (obj (field (text "pull_requests") (str (text "write")) end))
          end)))

abbrev token_info : Value
token_info = obj (
    field (text "token") (str (text "ghs_abcdefgh")) (
      field (text "expires_at") (str (text "later")) (
        field (text "permissions")
          (obj (
            field (text "metadata") (str (text "read"))
              (field (text "pull_requests") (str (text "read")) end)))
          end)))

abbrev repository_info : Value
repository_info = obj (
    field (text "total_count") (num (pos 1)) (
      field (text "repositories")
        (arr (
          cons
            (obj (
              field (text "id") (num (pos 1354026486))
                (field (text "full_name") (str (text "jan2xo/bke-worker")) end)))
            nil))
        end))

abbrev first_page : Value
first_page =
    page (field (text "hasNextPage") (bool true) (field (text "endCursor") (str (text "next")) end))
      (cons (node 8 (text "bke-worker:b")) nil)

abbrev last_page : Value
last_page =
    page (field (text "hasNextPage") (bool false) end) (cons (node 7 (text "bke-worker:a")) nil)

abbrev answered : Value → Fetched
answered v = response 200 true (some v)

abbrev nth_answer : List Value → ℕ → Fetched
nth_answer [] n = throws
nth_answer (v ∷ vs) zero = answered v
nth_answer (v ∷ vs) (suc n) = nth_answer vs n

abbrev ask_github : ℕ → Request → Fetched
ask_github n r =
    nth_answer (installation_info ∷ token_info ∷ repository_info ∷ first_page ∷ last_page ∷ []) n

abbrev here : Surroundings
here = record {
  trim = λ t. t;
  lower = lower_ascii;
  locale_compare = λ s t. if text_eq s t then pos 0 else if text_leb s t then negsuc 0 else pos 1;
  to_text = text_or_empty;
  parse_date = λ t. some (pos 1000000);
  now = 0;
  sign_jwt = λ id pem. some (text "jwt");
}

abbrev app : Value
app = obj (
    field (text "BKE_WORKER_GITHUB_APP_ID") (str (text "5"))
      (field (text "BKE_WORKER_GITHUB_APP_PRIVATE_KEY_PEM") (str (text "pem")) end))

-- The entry of a number and a worker
abbrev read_entry : ℕ → Text → Projected
read_entry n label = record {
  repository = text "jan2xo/bke-worker";
  repository_id = 1354026486;
  number = n;
  head_sha = str head;
  label = label;
}

abbrev listed : Value
listed =
    inventory_value (text "42") 1 2
      (read_entry 7 (text "bke-worker:a") ∷ read_entry 8 (text "bke-worker:b") ∷ [])

two_pages : list_installed_worker_assignments here ask_github app ≡ some (inr listed)
unfolding safe_fetch json fetch_json is_printable is_bearer is_valid_bearer is_exact_grant is_app_id
    is_ttl text_of signed is_installation_info installation_id is_token_info access_token valid_repo
    has_number has_control is_repository_page read_repos list_repos worker_labels projected_with
    has_value has_all_labels pr_projection item_of claim_worker add_node add_nodes declared queried
    declared_from queried_from query_of asked_of has_length is_payload is_same_total is_new_cursor
    may_continue after_page is_page is_identical add_page add_pages after_query is_not_after
    insert_entry sort_entries first_job first_loop query_batch drain prepare finish
    list_installed_worker_assignments is_truthy get get_field text text_eq text_or_empty every
    is_installation_id is_run is_text is_object is_text_where fields_of joined_keys join_texts sort
    insert_sorted text_leb starts_with is_count is_array elements number_of is_positive_safe
    is_repo_name is_repo is_dotted includes split_at has_text is_worker_id is_lower_or_digit
    is_worker_unit is_name_unit is_hex_unit is_sha is_commit is_string same_value is_bool is_num
    decimal digits_from has_properties inventory_value
two_pages = refl

list_installed-IsListed_example :
    IsListed lower_ascii text_or_empty (list_installed_worker_assignments here ask_github app)
list_installed-IsListed_example = list_installed-IsListed here ask_github app

abbrev gates : Value
gates = obj (
    field (text "BKE_ADMIN_BROKER_ENABLED") (str (text "true"))
      (field (text "BKE_ADMIN_PR_INVENTORY_ENABLED") (str (text "true")) end))

abbrev inventory_request : Value
inventory_request =
    obj (field (text "purpose") (str (text "admin_worker_assignment_inventory")) end)

listed_fulfilled_example :
    fulfill_admin_assignments lower_ascii text_or_empty gates inventory_request listed
    ≡ inr (record {
      installation_id = text_or_empty (get listed (text "installation_id"));
      total_visible_repositories = number_of (get listed (text "total_visible_repositories"));
      enumerated_open_pull_requests = number_of (get listed (text "enumerated_open_pull_requests"));
      worker_assignments = map safe_assignment (elements (get listed (text "worker_assignments")));
    })
unfolding inventory_value get get_field text text_eq elements pull_request_key text_or_empty
    number_of decimal digits_from has_text is_text is_purpose is_object joined_keys join_texts sort
    insert_sorted text_leb fields_of
listed_fulfilled_example =
    listed_fulfilled here ask_github app gates inventory_request listed two_pages refl refl refl
