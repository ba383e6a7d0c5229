-- ===== src/Claims.antt =====
-- One immutable GitHub ref for each attempt of a pull request: `claimSendOnce` of
-- `browser-extension/src/send-once-claim.ts`. A call is a state machine: each `await` is a state,
-- and what the adapter answers moves it on, with `none` for a promise that is rejected.
pub mod World
mod Tests
use bke_worker.Prelude.{
  [], ◌&&◌, ◌++◌, ◌∷◌, not, ℕ, Bool, true, false, Option, none, some, if◌then◌else◌,
}
use bke_worker.Js.Value.{number_of, is_num, same_value, is_positive_safe, Value}
use bke_worker.Protocol.Patterns.{
  is_worker_id, is_worker_unit, is_sha, is_run, is_lower_or_digit, is_repo,
}
use bke_worker.Text.Decimal.{decimal}
use bke_worker.Text.{text, text_eq, Text}

pub record SendOnceAttempt : Type 0 where
  pub repository : Text
  pub pr_number : Value
  pub head_sha : Text
  pub attempt_id : Text
  pub worker_id : Text

pub record ClaimAuthority : Type 0 where
  pub repository : Text
  pub installation_repository : Text
  pub installation_authenticated : Bool
  pub pr_number : Value
  pub pr_open : Bool
  pub head_sha : Text
  pub attempt_id : Text
  pub assigned_worker_id : Text
  pub authenticated_worker_id : Text
  pub active_worker_pr_count : Value
  pub pr_worker_count : Value

pub data ClaimCode : Type 0 where
  invalid_input wrong_worker_or_scope stale_head attempt_not_active : ClaimCode
  claim_already_exists claim_conflict read_uncertain write_uncertain : ClaimCode
  readback_mismatch claim_recorded : ClaimCode

-- What `createRefIfAbsent` resolves to; `other` is any other value.
pub data Created : Type 0 where
  created exists other : Created

-- ATTEMPT = /^[a-z0-9][a-z0-9-]{0,95}$/
unfoldable pub is_attempt_id : Text → Bool
is_attempt_id [] = false
is_attempt_id (c ∷ t) = is_lower_or_digit c && is_run is_worker_unit 0 95 t

unfoldable pub valid : SendOnceAttempt → Bool
valid input =
    is_repo input.repository
    && is_positive_safe input.pr_number
    && is_sha input.head_sha
    && is_worker_id input.worker_id
    && is_attempt_id input.attempt_id

-- `none` is the `null` of the code: nothing speaks against the claim.
unfoldable pub authority_code : ClaimAuthority → SendOnceAttempt → Option ClaimCode
authority_code a r =
    if not (
      a.installation_authenticated
      && text_eq a.repository r.repository
      && text_eq a.installation_repository r.repository
      && same_value a.pr_number r.pr_number
      && text_eq a.assigned_worker_id r.worker_id
      && text_eq a.authenticated_worker_id r.worker_id
      && is_num a.active_worker_pr_count 1
      && is_num a.pr_worker_count 1
      && a.pr_open)
    then some wrong_worker_or_scope
    else if not (text_eq a.head_sha r.head_sha)
    then some stale_head
    else if not (text_eq a.attempt_id r.attempt_id)
    then some attempt_not_active
    else none

-- `refs/bke/claims/${request.prNumber}/${request.attemptId}`
unfoldable pub ref_of : SendOnceAttempt → Text
ref_of r = text "refs/bke/claims/" ++ (decimal (number_of r.pr_number) ++ (b'/' ∷ r.attempt_id))

-- Where a call waits, and what it returned.
pub data Pc : Type 0 where
  reading_authority reading_ref creating diagnosing reading_back reading_after : Pc
  returned : ClaimCode → Pc

unfoldable pub start : SendOnceAttempt → Pc
start r = if valid r then reading_authority else returned invalid_input

unfoldable pub after_authority : SendOnceAttempt → Option ClaimAuthority → Pc
after_authority r none = returned read_uncertain
after_authority r (some a) = elim (authority_code a r) [
  | none ↦ reading_ref
  | some code ↦ returned code
]

unfoldable pub after_ref : Option (Option Text) → Pc
after_ref none = returned read_uncertain
after_ref (some none) = creating
after_ref (some (some head)) = returned claim_already_exists

unfoldable pub after_create : Option Created → Pc
after_create none = diagnosing
after_create (some created) = reading_back
after_create (some exists) = returned claim_conflict
after_create (some other) = returned write_uncertain

-- `await github.readRef(ref) !== request.headSha`
unfoldable pub after_read_back : SendOnceAttempt → Option (Option Text) → Pc
after_read_back r none = returned read_uncertain
after_read_back r (some none) = returned readback_mismatch
after_read_back r (some (some head)) =
    if text_eq head r.head_sha then reading_after else returned readback_mismatch

unfoldable pub after_check : SendOnceAttempt → Option ClaimAuthority → Pc
after_check r none = returned read_uncertain
after_check r (some a) = elim (authority_code a r) [
  | none ↦ returned claim_recorded
  | some code ↦ returned code
]
