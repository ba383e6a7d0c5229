-- ===== src/Attempt/Bootstrap/Confirms.antt =====
-- The new conversation that a first message created: `browser-extension/src/bootstrap-fence.ts`.
use bke_worker.Attempt.Bootstrap.{
  new_conversation_candidate, candidate_only, BootstrapFenceResult, BootstrapFenceInput, candidate,
}
use bke_worker.Js.Value.{elements, text_or_empty, str, get, Value}
use bke_worker.Text.{text, Text}
use bke_worker.Attempt.Bootstrap.Evaluate.{
  has_valid_history, is_coherent_receipt, evaluate_bootstrap_fence,
}
use bke_worker.Prelude.{arith, ◌∷◌, true, ap, some, ◌∙◌, sym, ◌≡◌}
use bke_worker.Attempt.Bootstrap.Agreement.{
  same_field→eq, request→IsFor, target-IsOnlyTarget, cleared-IsAssignedTo, IsFor, IsOnlyTarget,
  IsAssignedTo,
}
use bke_worker.Attempt.Bootstrap.Fences.{send_claim_of, fence_of, valid_send_claim, valid_fence}
use bke_worker.Attempt.Bootstrap.Named.{IsReading}
use bke_worker.Attempt.Bootstrap.Cleared.{IsCleared}
use bke_worker.Attempt.Bootstrap.Candidates.{
  confirms, sends, prepares, IsReceived, reevaluates, Rests,
}
use bke_worker.Attempt.Bootstrap.Pages.{target_matches_request, page_conversation}
use bke_worker.Attempt.Bootstrap.Permits.{evaluate-Found}
use bke_worker.Attempt.Times.{IsBefore-trans, is_ordered→IsBefore, IsBefore}
use bke_worker.Attempt.Remembered.{conversation_id_from_url-identifier, added-IsHistory, IsHistory}
use bke_worker.Attempt.History.{texts}
use bke_worker.Js.Reads.{is_text→eq}
use bke_worker.Attempt.Platform.{clock_skew_ms, valid_iso_utc, conversation_id_from_url, Platform}

-- The evidence behind a candidate for the new conversation `id`.
pub record IsNewConversation (js : Platform) (request github browser now_iso : Value) (id : Text)
    : Type 0 where
  pub assigned : IsAssignedTo request github
  pub target : IsOnlyTarget request browser
  pub fence_for : IsFor request (get github (text "fence"))
  pub claim_for : IsFor request (get github (text "sendClaim"))
  pub claim_fence :
      get (get github (text "sendClaim")) (text "fenceId")
      ≡ get (get github (text "fence")) (text "fenceId")
  pub receipt_for : IsFor request (get browser (text "firstMessageReceipt"))
  pub receipt_fence :
      get (get browser (text "firstMessageReceipt")) (text "fenceId")
      ≡ get (get github (text "fence")) (text "fenceId")
  pub receipt_claim :
      get (get browser (text "firstMessageReceipt")) (text "sendClaimId")
      ≡ get (get github (text "sendClaim")) (text "claimId")
  pub receipt_conversation :
      get (get browser (text "firstMessageReceipt")) (text "conversationId") ≡ str id
  pub shown :
      conversation_id_from_url js (text_or_empty (get (get browser (text "current")) (text "url")))
      ≡ some id
  pub claimed_sent :
      IsBefore 0
        (valid_iso_utc js (get (get github (text "sendClaim")) (text "claimedAt")))
        (valid_iso_utc js (get (get browser (text "firstMessageReceipt")) (text "sendStartedAt")))
  pub committed_confirmed :
      IsBefore 0
        (valid_iso_utc js (get (get github (text "fence")) (text "committedAt")))
        (valid_iso_utc js (get (get browser (text "firstMessageReceipt")) (text "confirmedAt")))
  pub confirmed_now :
      IsBefore clock_skew_ms
        (valid_iso_utc js (get (get browser (text "firstMessageReceipt")) (text "confirmedAt")))
        (valid_iso_utc js now_iso)
  pub history : IsHistory (id ∷ texts (elements (get github (text "priorConversationIds"))))

module _ (js : Platform) (i : BootstrapFenceInput) (id : Text) where
  -- The receipt of the first message.
  abbrev receipt_of : Value
  receipt_of = get i.browser (text "firstMessageReceipt")

  received-IsNewConversation :
      i.page ≡ get i.browser (text "current")
      → IsCleared js i
      → IsReceived js i id
      → target_matches_request i ≡ true
      → IsNewConversation js i.request i.github i.browser i.now_iso id
  unfolding valid_fence valid_send_claim is_coherent_receipt page_conversation has_valid_history
  received-IsNewConversation p c f t =
      let fence = f.fence in
      let claim = f.claim in
      let coherent = f.coherent in
      let prior = c.valid_history in
      let at = λ (v : Value) (key : Text). valid_iso_utc js (get v key) in
      let committed_claimed =
        is_ordered→IsBefore 0 (at (fence_of i) (text "committedAt"))
          (at (send_claim_of i) (text "claimedAt")) (ground arith) in
      let claimed_sent =
        is_ordered→IsBefore 0 (at (send_claim_of i) (text "claimedAt"))
          (at receipt_of (text "sendStartedAt")) (ground arith) in
      let sent_confirmed =
        is_ordered→IsBefore 0 (at receipt_of (text "sendStartedAt"))
          (at receipt_of (text "confirmedAt")) (ground arith) in
      record {
        assigned = cleared-IsAssignedTo js i c;
        target = target-IsOnlyTarget i p t;
        fence_for = request→IsFor (fence_of i) i.request (ground arith);
        claim_for = request→IsFor (send_claim_of i) i.request (ground arith);
        claim_fence = same_field→eq (send_claim_of i) _ (fence_of i) _ (ground arith);
        receipt_for = request→IsFor receipt_of i.request (ground arith);
        receipt_fence = same_field→eq receipt_of _ (fence_of i) _ (ground arith);
        receipt_claim = same_field→eq receipt_of _ (send_claim_of i) _ (ground arith);
        receipt_conversation = is_text→eq _ id (ground arith);
        shown =
            ap (λ q. conversation_id_from_url js (text_or_empty (get q (text "url")))) (sym p)
            ∙ f.shown;
        claimed_sent = claimed_sent;
        committed_confirmed =
            IsBefore-trans 0 0 _ _ _ (IsBefore-trans 0 0 _ _ _ committed_claimed claimed_sent)
              sent_confirmed;
        confirmed_now = is_ordered→IsBefore clock_skew_ms _ _ (ground arith);
        history =
            added-IsHistory (get i.github (text "priorConversationIds")) id (ground arith)
              (conversation_id_from_url-identifier js _ id f.shown) (ground arith);
      }

module _ (js : Platform) where
  founded-IsNewConversation :
      (v : Value) (i : BootstrapFenceInput) (r : BootstrapFenceResult)
      → IsReading v i
      → IsCleared js i
      → Rests js i r
      → r.code ≡ new_conversation_candidate
      → (id : Text) × IsNewConversation js
          (get v (text "request"))
          (get v (text "github"))
          (get v (text "browser"))
          (get v (text "nowIso"))
          id
  unfolding candidate
  founded-IsNewConversation v i r reading c (reevaluates u e) k =
      let same = sym k ∙ ap (λ x. x.code) e in cc
  founded-IsNewConversation v i r reading c (prepares u p t e) k =
      let same = sym k ∙ ap (λ x. x.code) e in cc
  founded-IsNewConversation v i r reading c (sends f t e) k =
      let same = sym k ∙ ap (λ x. x.code) e in cc
  founded-IsNewConversation v i r reading c (confirms id q t e) k = (
    id,
    rw (← reading.request, ← reading.github, ← reading.browser, ← reading.now_iso)
        (received-IsNewConversation js i id
          (reading.page ∙ ap (λ b. get b (text "current")) (sym reading.browser)) c q t),
  )

  -- A candidate for a new conversation is given only where the fence, the claim of the first send
  -- and the receipt of the message are all for the request's attempt, worker, head, target, profile
  -- and tab, the claim and the receipt name the fence, and the receipt names the claim; the URL of
  -- the page and the receipt name one conversation; the fence was committed no later than the
  -- conversation was confirmed, the claim no later than the sending began, and the confirmation is
  -- not in the future, up to the skew; and the conversation is new: with it the history still is a
  -- list of distinct identifiers.
  pub evaluate_confirms-IsNewConversation :
      (v : Value)
      → (evaluate_bootstrap_fence js v).decision ≡ candidate_only
      → (evaluate_bootstrap_fence js v).code ≡ new_conversation_candidate
      → (id : Text) × IsNewConversation js
          (get v (text "request"))
          (get v (text "github"))
          (get v (text "browser"))
          (get v (text "nowIso"))
          id
  evaluate_confirms-IsNewConversation v d k =
      let found = evaluate-Found js v d in
      founded-IsNewConversation v found.input (evaluate_bootstrap_fence js v) found.reading
        found.cleared found.rests k
