-- ===== src/Protocol/Routing/Edits.antt =====
-- An edit of a pull request's body wakes a worker only by a marker: the "edited" branch of
-- `routeGitHubPullRequest` in `cloudflare-relay/src/protocol.js`.
use bke_worker.Text.{text_eq, includes, starts_with, text, Text}
use bke_worker.Text.Decimal.{decimal}
use bke_worker.Protocol.Patterns.{control_repository, is_hex_unit}
use bke_worker.Prelude.{
  [], none, take, every, leb, not, some, ◌&&◌, ◌++◌, ◌||◌, if◌then◌else◌, length, ◌∷◌, drop, false,
  Bool, Option, ℕ,
}

-- Why an edit stops.
pub data Edit : Type 0 where
  control_repository_only non_recovery_edit_event : Edit
  continuation_marker_invalid continuation_marker_not_new : Edit
  cross_pr_recovery_marker_invalid cross_pr_recovery_marker_not_new : Edit

pub data EditReason : Type 0 where
  marked : Text → EditReason
  stopped : Edit → EditReason

abbrev pub cross_pr_recovery_marker : Text
cross_pr_recovery_marker = text "BKE-RECOVER-CROSS-PR-WAKE"

abbrev pub continuation_marker : Text
continuation_marker = text "BKE-CONTINUATION-RESUME"

-- `<!-- ${marker} worker=${workerId} pr=${prNumber} head=${headSha}`
unfoldable pub marker_head : (marker worker_id : Text) → ℕ → (head_sha : Text) → Text
marker_head marker worker_id n head_sha =
    text "<!-- "
    ++ (marker
        ++ (text " worker="
            ++ (worker_id ++ (text " pr=" ++ (decimal n ++ (text " head=" ++ head_sha))))))

unfoldable pub recovery_marker : Text → ℕ → Text → Text
recovery_marker worker_id n head_sha =
    marker_head cross_pr_recovery_marker worker_id n head_sha ++ text " -->"

-- The expression matches at the start: `[a-f0-9]{24}` between two fixed texts.
unfoldable pub starts_continuation : Text → Text → Bool
starts_continuation before t =
    let generation = drop (length before) t in
    starts_with t before
    && leb 24 (length generation)
    && every is_hex_unit (take 24 generation)
    && starts_with (drop 24 generation) (text " -->")

-- `continuationPattern.test(t)`: it matches somewhere.
unfoldable pub has_continuation : Text → Text → Bool
has_continuation before [] = starts_continuation before []
has_continuation before (c ∷ t) = starts_continuation before (c ∷ t) || has_continuation before t

-- `priorBody === null || priorBody.includes(marker)` fails
unfoldable pub is_new : Option Text → Text → Bool
is_new none marker = false
is_new (some prior) marker = not (includes prior marker)

-- `prior` is the body before the edit, if the event has it.
unfoldable pub edit_reason :
    (repository worker_id : Text) → ℕ → (head_sha body : Text) → (prior : Option Text) → EditReason
edit_reason repository worker_id n head_sha body prior =
    if not (text_eq repository control_repository)
    then stopped control_repository_only
    else if not (includes body continuation_marker) && not (includes body cross_pr_recovery_marker)
    then stopped non_recovery_edit_event
    else if includes body continuation_marker
    then (if not (
          has_continuation
            (marker_head continuation_marker worker_id n head_sha ++ text " generation=") body)
        then stopped continuation_marker_invalid
        else if not (is_new prior continuation_marker)
        then stopped continuation_marker_not_new
        else marked (text "github_pull_request_continuation"))
    else if not (includes body (recovery_marker worker_id n head_sha))
    then stopped cross_pr_recovery_marker_invalid
    else if not (is_new prior cross_pr_recovery_marker)
    then stopped cross_pr_recovery_marker_not_new
    else marked (text "github_pull_request_cross_pr_recovery")
