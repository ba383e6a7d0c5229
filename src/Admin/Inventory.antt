-- ===== src/Admin/Inventory.antt =====
-- The inventory of assignments that the broker reads from GitHub: `listInstalledWorkerAssignments`
-- of
-- `cloudflare-relay/src/admin-assignment-inventory.js`. Here are its errors, its requests and the
-- answers to them, and the state of its loop.
pub mod Grant
pub mod Repositories
pub mod Projecting
pub mod Paging
pub mod Listing
pub mod Finishing
pub mod Sorted
pub mod Safe
pub mod Sound
pub mod Counted
pub mod Prepared
pub mod Numbers
pub mod Keyed
pub mod Apart
pub mod ReadBack
pub mod Ready
pub mod Fulfilled
mod Tests
use bke_worker.Js.Value.{Value}
use bke_worker.Text.{Text}
use bke_worker.Protocol.Assignments.{is_truthy}
use bke_worker.Prelude.{
  true, false, refl, ◌≡◌, not, ltb, none, ◌&&◌, inr, some, leb, inl, if◌then◌else◌, Bool, ◌⊎◌,
  Option, ℕ, List,
}

-- The last part of the code that `safeFetch` throws for a stage
pub data Stage : Type 0 where
  installation_stage token_stage repositories_stage pull_requests_stage : Stage

pub data InventoryError : Type 0 where
  app_unconfigured signing_unavailable redirect_blocked : InventoryError
  transport_unavailable provider_unavailable : Stage → InventoryError
  installation_invalid installation_scope_invalid token_invalid token_scope_invalid : InventoryError
  repositories_invalid repositories_incomplete repository_invalid : InventoryError
  repository_duplicate repository_identity_changed : InventoryError
  subrequest_budget_exceeded capacity_exceeded : InventoryError
  pull_requests_invalid pull_request_invalid pr_duplicate : InventoryError
  label_invalid label_conflict label_pagination_incomplete : InventoryError
  worker_conflict pagination_ambiguous pagination_incomplete : InventoryError

-- What a step returns or throws.
abbrev pub Result {ℓ} : Type ℓ → Type ℓ
Result A = InventoryError ⊎ A

infixl 5 ◌>>=◌ ◌>>◌
abbrev pub ◌>>=◌ {ℓ κ} : {A : Type ℓ} {B : Type κ} → Result A → (A → Result B) → Result B
inl e >>= f = inl e
inr a >>= f = f a

abbrev pub ◌>>◌ {ℓ κ} : {A : Type ℓ} {B : Type κ} → Result A → Result B → Result B
m >> k = m >>= λ _. k

-- `if (!test) reject(code)`
abbrev pub require : Bool → InventoryError → Result (Unit {0})
require test code = if test then inr tt else inl code

-- What the fetch does: it throws, or resolves to something with no number for a status, or to a
-- response, whose body is `none` where `response.json()` rejects.
pub data Fetched : Type 0 where
  throws : Fetched
  no_response : Fetched
  response : (status : ℕ) → (ok : Bool) → (body : Option Value) → Fetched

-- `safeFetch`, up to the response's body
unfoldable pub safe_fetch : Stage → Fetched → Result (Option Value)
safe_fetch stage throws = inl (transport_unavailable stage)
safe_fetch stage no_response = inl (provider_unavailable stage)
safe_fetch stage (response status ok body) =
    if leb 300 status && ltb status 400
    then inl redirect_blocked
    else if not ok
    then inl (provider_unavailable stage)
    else inr body

-- `json`
unfoldable pub json : Option Value → InventoryError → Result Value
json none code = inl code
json (some v) code = if is_truthy v then inr v else inl code

-- `safeFetch` and `json`, as they are called in a row
unfoldable pub fetch_json : Stage → InventoryError → Fetched → Result Value
fetch_json stage code f = do body ← safe_fetch stage f; json body code

pub record Repo : Type 0 where
  pub id : ℕ
  pub name : Text

-- What one repository of a batch is asked with: the halves of its name, and the cursor.
pub record Asked : Type 0 where
  pub owner : Text
  pub repo_name : Text
  pub cursor : Option Text

pub data Request : Type 0 where
  get_installation : (jwt : Text) → Request
  post_access_token : (jwt installation_id : Text) → Request
  get_repositories : (token : Text) → Request
  post_query : (token query : Text) → List Asked → Request

-- The entry that is pushed for a pull request.
pub record Projected : Type 0 where
  pub repository : Text
  pub repository_id : ℕ
  pub number : ℕ
  pub head_sha : Value
  pub label : Text

-- A repository that is being read: `pending`'s entries.
pub record Job : Type 0 where
  pub repo : Repo
  pub cursor : Option Text
  pub page : ℕ
  pub total : Option ℕ
  pub numbers : List ℕ

-- The variables of the loop over the pull requests.
pub record Progress : Type 0 where
  pub assignments : List Projected
  pub worker_claims : List Text
  pub enumerated_open : ℕ

-- The loop's state at the test of its condition.
pub record Loop : Type 0 where
  pub progress : Progress
  pub pending : List Job
  pub graph_calls : ℕ

abbrev pub max_graphql_calls : ℕ
max_graphql_calls = 40

abbrev pub graphql_batch_size : ℕ
graphql_batch_size = 8

abbrev pub max_total_prs : ℕ
max_total_prs = 2000

abbrev pub max_assignments : ℕ
max_assignments = 500

abbrev pub max_repos : ℕ
max_repos = 100

abbrev pub max_repo_pages : ℕ
max_repo_pages = 4

abbrev pub per_page : ℕ
per_page = 100

-- What holds of every error, and of what follows a value, holds of a chained step.
pub bind_holds {ℓ κ μ} :
    {A : Type ℓ} {B : Type κ} (P : Result B → Type μ) (m : Result A) (f : A → Result B)
    → ((e : InventoryError) → P (inl e))
    → ((a : A) → m ≡ inr a → P (f a))
    → P (m >>= f)
bind_holds P (inl e) f p q = p e
bind_holds P (inr a) f p q = q a refl

pub require_holds {κ μ} :
    {B : Type κ} (P : Result B → Type μ) (test : Bool) (code : InventoryError) (k : Result B)
    → ((e : InventoryError) → P (inl e))
    → (test ≡ true → P k)
    → P (require test code >> k)
require_holds P true code k p q = q refl
require_holds P false code k p q = p code

-- Where a step does not throw, its value satisfies `P`.
abbrev pub Gives {ℓ κ} : {A : Type ℓ} → (A → Type κ) → Result A → Type κ
Gives P (inl e) = Unit
Gives P (inr a) = P a

pub bind-Gives {ℓ κ μ ν} :
    {A : Type ℓ} {B : Type κ} (Q : A → Type μ) (P : B → Type ν) (m : Result A) (f : A → Result B)
    → Gives Q m
    → ((a : A) → Q a → Gives P (f a))
    → Gives P (m >>= f)
bind-Gives Q P (inl e) f q h = tt
bind-Gives Q P (inr a) f q h = h a q

pub require-Gives {κ ν} :
    {B : Type κ} (P : B → Type ν) (test : Bool) (code : InventoryError) (k : Result B)
    → (test ≡ true → Gives P k)
    → Gives P (require test code >> k)
require-Gives P true code k h = h refl
require-Gives P false code k h = tt

pub any-Gives {ℓ κ} : {A : Type ℓ} (P : A → Type κ) (r : Result A) → ((a : A) → P a) → Gives P r
any-Gives P (inl e) h = tt
any-Gives P (inr a) h = h a
