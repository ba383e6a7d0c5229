-- ===== src/Admin/Inventory/Grant.antt =====
-- The installation and the token of `cloudflare-relay/src/admin-assignment-inventory.js`.
use bke_worker.Admin.Inventory.{
  installation_scope_invalid, token_scope_invalid, require, ◌>>◌, installation_invalid,
  token_invalid, token_stage, installation_stage, fetch_json, ◌>>=◌, app_unconfigured,
  signing_unavailable, Result, Fetched,
}
use bke_worker.Js.Value.{text_or_empty, is_text, is_text_where, get, is_object, Value}
use bke_worker.Text.{text_eq, text, starts_with, Text}
use bke_worker.Js.Integer.{pos, negsuc, ℤ}
use bke_worker.Protocol.Assignments.{is_truthy}
use bke_worker.Protocol.Patterns.{in_range}
use bke_worker.Admin.Assignments.{is_installation_id}
use bke_worker.Admin.Broker.{joined_keys}
use bke_worker.Prelude.{
  inr, ◌||◌, ◌+◌, inl, none, ◌==◌, every, leb, not, length, ◌∷◌, [], ◌&&◌, some, false, ltb,
  if◌then◌else◌, Option, Bool, ℕ,
}

-- A unit that /[\x00-\x20\x7f]/ does not match
unfoldable pub is_printable : ℕ → Bool
is_printable c = ltb 32 c && not (c == 127)

unfoldable pub is_bearer : Text → Bool
is_bearer t =
    starts_with t (text "ghs_") && ltb 8 (length t) && leb (length t) 8192 && every is_printable t

-- `validBearer`
unfoldable pub is_valid_bearer : Value → Bool
is_valid_bearer v = is_text_where is_bearer v

-- `exactGrant`
unfoldable pub is_exact_grant : Value → Bool
is_exact_grant grant =
    is_object grant
    && text_eq (joined_keys grant) (text "metadata,pull_requests")
    && is_text (get grant (text "metadata")) (text "read")
    && is_text (get grant (text "pull_requests")) (text "read")

-- /^[1-9][0-9]*$/
unfoldable pub is_app_id : Text → Bool
is_app_id [] = false
is_app_id (c ∷ t) = in_range b'1' b'9' c && every (in_range b'0' b'9') t

-- The time to live is finite and in its bounds, `now` being `Date.now()`.
unfoldable pub is_ttl : (now : ℕ) → (expires : Option ℤ) → Bool
is_ttl now none = false
is_ttl now (some (negsuc n)) = false
is_ttl now (some (pos n)) = leb (now + 120000) n && leb n (now + 3660000)

-- The platform and the environment: `trim`, `toLowerCase`, `localeCompare`, `String`, `Date.parse`
-- of
-- the value's string, `none` where that is no finite number, `Date.now()`, and `signJwt`, `none`
-- where that throws.
pub record Surroundings : Type 0 where
  pub trim : Text → Text
  pub lower : Text → Text
  pub locale_compare : Text → Text → ℤ
  pub to_text : Value → Text
  pub parse_date : Text → Option ℤ
  pub now : ℕ
  pub sign_jwt : (app_id pem : Text) → Option Text

module _ (sur : Surroundings) where
  -- `String(v || "")`
  unfoldable pub text_of : Value → Text
  text_of v = if is_truthy v then sur.to_text v else []

  -- The signed request of the app.
  unfoldable pub signed : (env : Value) → Result Text
  signed env =
      let app_id = sur.trim (text_of (get env (text "BKE_WORKER_GITHUB_APP_ID"))) in
      let pem = sur.trim (text_of (get env (text "BKE_WORKER_GITHUB_APP_PRIVATE_KEY_PEM"))) in
      if is_app_id app_id && not (text_eq pem [])
      then elim (sur.sign_jwt app_id pem) [ none ↦ inl signing_unavailable | some jwt ↦ inr jwt ]
      else inl app_unconfigured

  unfoldable pub is_installation_info : Value → Bool
  is_installation_info info =
      let selection = get info (text "repository_selection") in
      let scope = get (get info (text "permissions")) (text "pull_requests") in
      is_installation_id (text_of (get info (text "id")))
      && (is_text selection (text "all") || is_text selection (text "selected"))
      && (is_text scope (text "read") || is_text scope (text "write"))

  unfoldable pub installation_id : Fetched → Result Text
  installation_id answer = do
    info ← fetch_json installation_stage installation_invalid answer
    require (is_installation_info info) installation_scope_invalid
    inr (text_of (get info (text "id")))

  unfoldable pub is_token_info : Value → Bool
  is_token_info info =
      is_valid_bearer (get info (text "token"))
      && is_exact_grant (get info (text "permissions"))
      && is_ttl sur.now (sur.parse_date (text_of (get info (text "expires_at"))))

  unfoldable pub access_token : Fetched → Result Text
  access_token answer = do
    info ← fetch_json token_stage token_invalid answer
    require (is_token_info info) token_scope_invalid
    inr (text_or_empty (get info (text "token")))
