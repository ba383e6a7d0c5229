-- ===== src/Protocol/Routing.antt =====
-- From a GitHub pull request event to a wake: `routeGitHubPullRequest` of
-- `cloudflare-relay/src/protocol.js`. `lower` is `String.prototype.toLowerCase`, an argument.
pub mod Labels
pub mod Edits
pub mod Events
pub mod Reasons
pub mod Routed
pub mod Fixtures
mod Tests
use bke_worker.Text.{has_text, text_eq, text, Text}
use bke_worker.Js.Value.{is_text, is_object, text_or_none, num, get, text_or_empty, Value}
use bke_worker.Protocol.Routing.Labels.{read_worker_labels, worker_id_from_label}
use bke_worker.Protocol.Routing.Edits.{stopped, marked, edit_reason, Edit}
use bke_worker.Js.Integer.{to_ℕ, is_positive, negsuc, ℤ}
use bke_worker.Protocol.Wake.{Wake}
use bke_worker.Protocol.Patterns.{is_control_repository, is_sha, is_valid_delivery_id}
use bke_worker.Prelude.{
  none, some, if◌then◌else◌, ℕ, Bool, ◌&&◌, not, ◌⊎◌, List, [], ◌∷◌, ◌++◌, inl, inr,
}

pub data Route : Type 0 where
  github_delivery_invalid github_payload_invalid non_control_repository : Route
  github_pull_request_required github_pull_request_number_required : Route
  ambiguous_pr_assignment : (number : ℕ) (labels : List Text) → Route
  unassigned_pull_request : (number : ℕ) → Route
  worker_id_invalid : (number : ℕ) → Route
  pull_request_not_open : (number : ℕ) → Route
  not_routing_trigger : (number : ℕ) → Route
  github_pull_request_head_invalid : Route
  non_assignment_label_event : (number : ℕ) → Route
  edit_stopped : (number : ℕ) → Edit → Route
  routed : (worker_id : Text) → Wake → Route

abbrev pub routing_actions : List Text
routing_actions =
    text "opened" ∷ text "reopened" ∷ text "labeled" ∷ text "synchronize" ∷ text "edited" ∷ []

-- `Number.isInteger(v) ? v : otherwise`
unfoldable pub integer_or : Value → ℤ → ℤ
integer_or (num z) otherwise = z
integer_or v otherwise = otherwise

-- The sender pushed to a branch of the repository that the sender owns.
unfoldable pub is_self_push : (Text → Text) → Text → Value → Value → Bool
is_self_push lower repository payload pull_request =
    let sender = text_or_empty (get (get payload (text "sender")) (text "login")) in
    let head_repo = get (get pull_request (text "head")) (text "repo") in
    let owner = text_or_empty (get (get head_repo (text "owner")) (text "login")) in
    not (text_eq sender [])
    && text_eq (text_or_empty (get head_repo (text "full_name"))) repository
    && not (text_eq owner [])
    && text_eq (lower sender) (lower owner)

-- The reason of the wake, or where the event stops.
unfoldable pub reason_for :
    (Text → Text)
    → (repository label worker_id : Text) → (number : ℕ) → (action head_sha : Text)
    → (payload pull_request : Value) → Route ⊎ Text
reason_for lower repository label worker_id n action head_sha payload pull_request =
    if text_eq action (text "synchronize")
    then (if is_self_push lower repository payload pull_request
        then inr (text "github_pull_request_self_synchronize")
        else inr (text "github_pull_request_" ++ action))
    else if text_eq action (text "labeled")
    then (if text_eq (lower (text_or_empty (get (get payload (text "label")) (text "name"))))
          (lower label)
        then inr (text "github_pull_request_" ++ action)
        else inl (non_assignment_label_event n))
    else if text_eq action (text "edited")
    then elim (edit_reason repository worker_id n head_sha
        (text_or_empty (get pull_request (text "body")))
        (text_or_none (get (get (get payload (text "changes")) (text "body")) (text "from")))) [
          | marked reason ↦ inr reason
          | stopped why ↦ inl (edit_stopped n why)
        ]
    else inr (text "github_pull_request_" ++ action)

-- From the action to the end: one label names one worker, and the pull request is open.
unfoldable pub route_open :
    (Text → Text)
    → (delivery_id repository label worker_id : Text) → (number : ℕ)
    → (payload pull_request : Value) → Route
route_open lower delivery_id repository label worker_id n payload pull_request =
    let action = text_or_empty (get payload (text "action")) in
    let head_sha = text_or_empty (get (get pull_request (text "head")) (text "sha")) in
    if not (has_text routing_actions action)
    then not_routing_trigger n
    else if not (is_sha head_sha)
    then github_pull_request_head_invalid
    else elim (reason_for lower repository label worker_id n action head_sha payload pull_request) [
      | inl stop ↦ stop
      | inr reason ↦ routed worker_id (record {
        worker_id = worker_id;
        repo = repository;
        pr_number = n;
        expected_head_sha = head_sha;
        reason = reason;
        delivery_id = delivery_id;
      })
    ]

-- The labels name the worker.
unfoldable pub route_labels :
    (Text → Text)
    → (delivery_id repository : Text) → (number : ℕ) → (payload pull_request : Value) → List Text
    → Route
route_labels lower delivery_id repository n payload pull_request [] = unassigned_pull_request n
route_labels lower delivery_id repository n payload pull_request (label ∷ other ∷ rest) =
    ambiguous_pr_assignment n (label ∷ other ∷ rest)
route_labels lower delivery_id repository n payload pull_request (label ∷ []) =
    elim (worker_id_from_label lower label) [
      | none ↦ worker_id_invalid n
      | some worker_id ↦
          if is_text (get pull_request (text "state")) (text "open")
          then route_open lower delivery_id repository label worker_id n payload pull_request
          else pull_request_not_open n
    ]

-- `deliveryId` is the value of a header, `null` if it is missing.
unfoldable pub route_github_pull_request : (Text → Text) → Value → Value → Route
route_github_pull_request lower payload delivery_id =
    let repository = text_or_empty (get (get payload (text "repository")) (text "full_name")) in
    let pull_request = get payload (text "pull_request") in
    let number =
      integer_or (get payload (text "number"))
        (integer_or (get pull_request (text "number")) (negsuc 0)) in
    if not (is_valid_delivery_id delivery_id)
    then github_delivery_invalid
    else if not (is_object payload)
    then github_payload_invalid
    else if not (is_control_repository repository)
    then non_control_repository
    else if not (is_object pull_request)
    then github_pull_request_required
    else if not (is_positive number)
    then github_pull_request_number_required
    else route_labels lower (text_or_empty delivery_id) repository (to_ℕ number) payload
        pull_request (read_worker_labels lower pull_request)
