-- ===== src/Protocol/Wake.antt =====
-- The wake, the one work order of the relay: `validateWake` of
-- `cloudflare-relay/src/protocol.js`, and the record behind a value that it accepts.
pub mod Reading
use bke_worker.Prelude.{ℕ, ◌≡◌, Bool, true, false, ◌&&◌, List, [], ◌∷◌, Option, none, some, ltb}
use bke_worker.Text.{Text, text, text_eq}
use bke_worker.Js.Integer.{pos}
use bke_worker.Js.Value.{
  Value, num, str, obj, Fields, end, field, get, is_text, is_num, is_text_where,
  is_positive_integer, text_or_empty, number_of,
}
use bke_worker.Js.Keys.{exact_keys}
use bke_worker.Protocol.Patterns.{
  protocol_version, is_worker_id, is_sha, is_delivery_id, is_reason, is_control_repository,
  is_valid_worker_id, is_valid_delivery_id,
}

-- The fields that vary; `protocol` and `type` are fixed by the validator.
pub record Wake : Type 0 where
  pub worker_id : Text
  pub repo : Text
  pub pr_number : ℕ
  pub expected_head_sha : Text
  pub reason : Text
  pub delivery_id : Text

abbrev pub wake_keys : List Text
wake_keys =
    text "protocol"
    ∷ text "type"
    ∷ text "worker_id"
    ∷ text "repo"
    ∷ text "pr_number"
    ∷ text "expected_head_sha"
    ∷ text "reason"
    ∷ text "delivery_id"
    ∷ []

-- `expectedWorkerId !== null && value !== expectedWorkerId` fails the test
unfoldable pub is_expected : Option Text → Value → Bool
is_expected none v = true
is_expected (some id) v = is_text v id

unfoldable pub validate_wake : Value → Option Text → Bool
unfolding is_expected
validate_wake v expected_worker_id =
    exact_keys v wake_keys
    && is_num (get v (text "protocol")) protocol_version
    && is_text (get v (text "type")) (text "wake")
    && is_valid_worker_id (get v (text "worker_id"))
    && is_expected expected_worker_id (get v (text "worker_id"))
    && is_text_where is_control_repository (get v (text "repo"))
    && is_positive_integer (get v (text "pr_number"))
    && is_text_where is_sha (get v (text "expected_head_sha"))
    && is_text_where is_reason (get v (text "reason"))
    && is_valid_delivery_id (get v (text "delivery_id"))

-- The fields that the session reads of a validated value.
unfoldable pub read_wake : Value → Wake
read_wake v = record {
  worker_id = text_or_empty (get v (text "worker_id"));
  repo = text_or_empty (get v (text "repo"));
  pr_number = number_of (get v (text "pr_number"));
  expected_head_sha = text_or_empty (get v (text "expected_head_sha"));
  reason = text_or_empty (get v (text "reason"));
  delivery_id = text_or_empty (get v (text "delivery_id"));
}

-- The object that `routeGitHubPullRequest` and `planRecovery` write for a wake.
unfoldable pub wake_fields : Wake → Fields
wake_fields w = field (text "protocol") (num (pos protocol_version)) (
    field (text "type") (str (text "wake")) (
      field (text "worker_id") (str w.worker_id) (
        field (text "repo") (str w.repo) (
          field (text "pr_number") (num (pos w.pr_number)) (
            field (text "expected_head_sha") (str w.expected_head_sha) (
              field (text "reason") (str w.reason)
                (field (text "delivery_id") (str w.delivery_id) end)))))))

unfoldable pub wake_value : Wake → Value
unfolding wake_fields
wake_value w = obj (wake_fields w)

-- What the validator promises of the fields.
pub record IsWake (w : Wake) : Type 0 where
  pub worker_ok : is_worker_id w.worker_id ≡ true
  pub repo_ok : is_control_repository w.repo ≡ true
  pub number_ok : ltb 0 w.pr_number ≡ true
  pub head_ok : is_sha w.expected_head_sha ≡ true
  pub reason_ok : is_reason w.reason ≡ true
  pub delivery_ok : is_delivery_id w.delivery_id ≡ true
