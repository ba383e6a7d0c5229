-- ===== src/Admin/Broker.antt =====
-- The gates of `cloudflare-relay/src/admin-broker.js` before and after the call that it makes:
-- `fulfillCommandCenterAdminRead` and `fulfillCommandCenterAdminCatalog`. What that call returns is
-- an argument; its error is thrown on, and is no result here.
use bke_worker.Text.{text_eq, text, Text}
use bke_worker.Js.Value.{
  elements, is_num, fields_of, is_array, keys, get, is_text, is_object, Value,
}
use bke_worker.Js.Keys.{sort}
use bke_worker.Protocol.Patterns.{control_repository}
use bke_worker.Prelude.{
  leb, length, inr, [], inl, ◌++◌, not, ◌&&◌, if◌then◌else◌, ◌∷◌, List, Bool, ◌⊎◌,
}

pub data BrokerError : Type 0 where
  broker_locked broker_scope_invalid broker_token_scope_invalid : BrokerError
  catalog_locked catalog_purpose_invalid catalog_result_invalid : BrokerError
  assignment_locked assignment_purpose_invalid assignment_response_invalid : BrokerError

-- `env?.[name] === "true"`
abbrev pub is_enabled : Value → Text → Bool
is_enabled env name = is_text (get env name) (text "true")

unfoldable pub join_texts : Text → List Text → Text
join_texts separator [] = []
join_texts separator (t ∷ []) = t
join_texts separator (t ∷ u ∷ ts) = t ++ (separator ++ join_texts separator (u ∷ ts))

-- `Object.keys(value).sort().join(",")`, of an object. The keys of an array or a string are
-- indices, which are none of the names that are asked for.
unfoldable pub joined_keys : Value → Text
joined_keys v = join_texts (text ",") (sort (keys (fields_of v)))

unfoldable pub is_read_request : Value → Bool
is_read_request request =
    is_object request
    && text_eq (joined_keys request) (text "purpose,repository")
    && is_text (get request (text "purpose")) (text "admin_source_discovery")
    && is_text (get request (text "repository")) control_repository

unfoldable pub is_read_token : Value → Bool
is_read_token minted =
    let permissions = get minted (text "permissions") in
    is_text (get minted (text "repository")) control_repository
    && is_text (get minted (text "principal")) (text "github_app_installation")
    && text_eq (joined_keys permissions) (text "contents,issues,pull_requests")
    && is_text (get permissions (text "contents")) (text "read")
    && is_text (get permissions (text "issues")) (text "read")
    && is_text (get permissions (text "pull_requests")) (text "read")

unfoldable pub fulfill_admin_read : (env request minted : Value) → BrokerError ⊎ Value
fulfill_admin_read env request minted =
    if not (is_enabled env (text "BKE_ADMIN_BROKER_ENABLED"))
    then inl broker_locked
    else if not (is_read_request request)
    then inl broker_scope_invalid
    else if not (is_read_token minted)
    then inl broker_token_scope_invalid
    else inr minted

-- A request with a purpose and nothing else.
unfoldable pub is_purpose : Value → Text → Bool
is_purpose request purpose =
    is_object request
    && text_eq (joined_keys request) (text "purpose")
    && is_text (get request (text "purpose")) purpose

-- `principal`, `authority` and `repository_scope` of an answer
unfoldable pub is_installation : Value → Bool
is_installation result =
    is_text (get result (text "principal")) (text "github_app_installation")
    && is_text (get result (text "authority")) (text "EXISTING_GITHUB_APP_INSTALLATION")
    && is_text (get result (text "repository_scope")) (text "INSTALLATION_APPROVED_ONLY")

unfoldable pub is_catalog : Value → Bool
is_catalog result =
    let repositories = get result (text "repositories") in
    is_installation result
    && is_array repositories
    && is_num (get result (text "total_visible")) (length (elements repositories))
    && leb (length (elements repositories)) 500

unfoldable pub fulfill_admin_catalog : (env request result : Value) → BrokerError ⊎ Value
fulfill_admin_catalog env request result =
    if not (
      is_enabled env (text "BKE_ADMIN_BROKER_ENABLED")
      && is_enabled env (text "BKE_ADMIN_REPO_CATALOG_ENABLED"))
    then inl catalog_locked
    else if not (is_purpose request (text "admin_installation_repository_catalog"))
    then inl catalog_purpose_invalid
    else if not (is_catalog result)
    then inl catalog_result_invalid
    else inr result
