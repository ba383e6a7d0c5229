-- ===== src/Attempt/Bootstrap/Fences.antt =====
-- The tests on the fence, on the receipt of its commit and on the claim of the first send, of
-- `browser-extension/src/bootstrap-fence.ts`.
use bke_worker.Js.Value.{str, is_num, is_text_where, bool, same_value, is_text, get, Value}
use bke_worker.Attempt.Platform.{
  is_recent, is_ordered, has_properties, same_field, conversation_id_from_url, clock_skew_ms,
  is_identifier, valid_iso_utc, Platform,
}
use bke_worker.Prelude.{not, none, some, false, true, ◌&&◌, Option, Bool}
use bke_worker.Js.Integer.{pos, same_integer, ℤ}
use bke_worker.Text.{text_eq, Text, text}
use bke_worker.Protocol.Patterns.{is_sha}
use bke_worker.Attempt.Bootstrap.{BootstrapFenceInput}

abbrev pub fence_of : BootstrapFenceInput → Value
fence_of i = get i.github (text "fence")

abbrev pub send_claim_of : BootstrapFenceInput → Value
send_claim_of i = get i.github (text "sendClaim")

abbrev pub commit_receipt_of : BootstrapFenceInput → Value
commit_receipt_of i = get i.browser (text "fenceCommitReceipt")

-- The six properties in which a fence, a receipt and a claim agree with the request.
unfoldable pub is_for_request : (v request : Value) → Bool
is_for_request v request =
    same_field v (text "attemptId") request (text "attemptId")
    && same_field v (text "workerId") request (text "workerId")
    && same_field v (text "headSha") request (text "headSha")
    && same_field v (text "targetId") request (text "targetId")
    && same_field v (text "profileId") request (text "profileId")
    && same_field v (text "targetTabId") request (text "targetTabId")

-- `Boolean(ms)`, of `null` or a time
unfoldable pub is_nonzero : Option ℤ → Bool
is_nonzero none = false
is_nonzero (some ms) = not (same_integer ms (pos 0))

module _ (js : Platform) where
  -- `typeof v === "string" && conversationIdFromUrl(v) === id`, for a string `id`
  unfoldable pub is_after_url : Value → (id : Text) → Bool
  is_after_url (str url) id = elim (conversation_id_from_url js url) [
    | none ↦ false
    | some after ↦ text_eq id after
  ]
  is_after_url v id = false

  unfoldable pub valid_fence : BootstrapFenceInput → Bool
  valid_fence i =
      let fence = fence_of i in
      let authorized_at = valid_iso_utc js (get i.github (text "attemptAuthorizedAt")) in
      let committed_at = valid_iso_utc js (get fence (text "committedAt")) in
      has_properties fence
      && same_value (get fence (text "durable")) (bool true)
      && is_text_where is_identifier (get fence (text "fenceId"))
      && is_text_where is_sha (get fence (text "commitSha"))
      && is_for_request fence i.request
      && same_field fence (text "executionId") i.request (text "executionId")
      && is_num (get fence (text "generation")) 1
      && is_ordered clock_skew_ms authorized_at committed_at

  unfoldable pub validate_fence_commit_receipt : BootstrapFenceInput → Bool
  validate_fence_commit_receipt i =
      let receipt = commit_receipt_of i in
      let fence = fence_of i in
      let now = valid_iso_utc js i.now_iso in
      let receipt_at = valid_iso_utc js (get receipt (text "observedAt")) in
      let committed_at = valid_iso_utc js (get fence (text "committedAt")) in
      has_properties receipt
      && has_properties fence
      && is_text (get receipt (text "event")) (text "FENCE_COMMIT_RETURNED")
      && same_field receipt (text "fenceId") fence (text "fenceId")
      && same_field receipt (text "commitSha") fence (text "commitSha")
      && is_for_request receipt i.request
      && same_field receipt (text "executionId") i.request (text "executionId")
      && is_ordered 0 committed_at receipt_at
      && is_recent now receipt_at

  unfoldable pub valid_send_claim : BootstrapFenceInput → Bool
  valid_send_claim i =
      let claim = send_claim_of i in
      let fence = fence_of i in
      let now = valid_iso_utc js i.now_iso in
      let claimed_at = valid_iso_utc js (get claim (text "claimedAt")) in
      let committed_at = valid_iso_utc js (get fence (text "committedAt")) in
      has_properties claim
      && has_properties fence
      && same_value (get claim (text "durable")) (bool true)
      && is_text_where is_identifier (get claim (text "claimId"))
      && is_text_where is_sha (get claim (text "commitSha"))
      && is_text_where is_identifier (get claim (text "fenceId"))
      && is_text_where is_sha (get claim (text "fenceCommitSha"))
      && same_field claim (text "fenceId") fence (text "fenceId")
      && same_field claim (text "fenceCommitSha") fence (text "commitSha")
      && is_for_request claim i.request
      && same_field claim (text "executionId") i.request (text "executionId")
      && is_num (get claim (text "generation")) 1
      && is_ordered 0 committed_at claimed_at
      && is_ordered clock_skew_ms claimed_at now
