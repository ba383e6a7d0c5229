-- ===== src/Attempt/Bootstrap/Sends.antt =====
-- What the first message may be sent upon: `browser-extension/src/bootstrap-fence.ts`.
use bke_worker.Js.Value.{is_text, num, bool, str, get, Value}
use bke_worker.Attempt.Bootstrap.{
  new_chat_landing, is_ui_state, BootstrapCode, first_send_cas_candidate, candidate_only,
  BootstrapFenceResult, BootstrapFenceInput, candidate,
}
use bke_worker.Attempt.Bootstrap.Evaluate.{evaluate_bootstrap_fence}
use bke_worker.Attempt.Bootstrap.Fences.{
  fence_of, commit_receipt_of, validate_fence_commit_receipt, valid_fence,
}
use bke_worker.Attempt.Bootstrap.Agreement.{
  same_field→eq, request→IsFor, target-IsOnlyTarget, cleared-IsAssignedTo, IsFor, IsOnlyTarget,
  IsAssignedTo,
}
use bke_worker.Attempt.Bootstrap.Pages.{
  is_usable, page_error, target_matches_request, landing_page_ready,
}
use bke_worker.Attempt.Bootstrap.Named.{IsReading}
use bke_worker.Prelude.{
  ◌||◌, not, if_holds, Option, ◌∙◌, sym, ap, arith, true, option_holds, none, ◌≡◌,
}
use bke_worker.Attempt.Bootstrap.Cleared.{same_value→eq, IsCleared}
use bke_worker.Text.{text}
use bke_worker.Attempt.Bootstrap.Candidates.{
  sends, confirms, prepares, reevaluates, IsFenced, Rests,
}
use bke_worker.Attempt.Bootstrap.Permits.{evaluate-Found}
use bke_worker.Attempt.Times.{is_ordered→IsBefore, IsBefore, is_recent→IsBefore}
use bke_worker.Js.Integer.{pos}
use bke_worker.Js.Reads.{is_text→eq, is_num→eq}
use bke_worker.Attempt.Platform.{
  landing_url, observation_max_age_ms, clock_skew_ms, valid_iso_utc, Platform,
}

-- The evidence behind a candidate for the first send.
pub record IsFirstSend (js : Platform) (request github browser now_iso : Value) : Type 0 where
  pub assigned : IsAssignedTo request github
  pub target : IsOnlyTarget request browser
  pub landing : get (get browser (text "current")) (text "url") ≡ str landing_url
  pub durable : get (get github (text "fence")) (text "durable") ≡ bool true
  pub generation : get (get github (text "fence")) (text "generation") ≡ num (pos 1)
  pub fence_for : IsFor request (get github (text "fence"))
  pub fence_execution :
      get (get github (text "fence")) (text "executionId") ≡ get request (text "executionId")
  pub receipt_for : IsFor request (get browser (text "fenceCommitReceipt"))
  pub receipt_execution :
      get (get browser (text "fenceCommitReceipt")) (text "executionId")
      ≡ get request (text "executionId")
  pub receipt_fence :
      get (get browser (text "fenceCommitReceipt")) (text "fenceId")
      ≡ get (get github (text "fence")) (text "fenceId")
  pub receipt_commit :
      get (get browser (text "fenceCommitReceipt")) (text "commitSha")
      ≡ get (get github (text "fence")) (text "commitSha")
  pub authorized_committed :
      IsBefore clock_skew_ms
        (valid_iso_utc js (get github (text "attemptAuthorizedAt")))
        (valid_iso_utc js (get (get github (text "fence")) (text "committedAt")))
  pub committed_received :
      IsBefore 0
        (valid_iso_utc js (get (get github (text "fence")) (text "committedAt")))
        (valid_iso_utc js (get (get browser (text "fenceCommitReceipt")) (text "observedAt")))
  pub received_now :
      IsBefore clock_skew_ms
        (valid_iso_utc js (get (get browser (text "fenceCommitReceipt")) (text "observedAt")))
        (valid_iso_utc js now_iso)
  pub now_received :
      IsBefore observation_max_age_ms
        (valid_iso_utc js now_iso)
        (valid_iso_utc js (get (get browser (text "fenceCommitReceipt")) (text "observedAt")))

module _ (js : Platform) (i : BootstrapFenceInput) where
  landing-url : landing_page_ready js i ≡ none → get i.page (text "url") ≡ str landing_url
  unfolding landing_page_ready
  landing-url =
      let P : Option BootstrapCode → Type 0 =
        λ o. o ≡ none → get i.page (text "url") ≡ str landing_url in
      option_holds P (page_error js i) _ _
        (λ _.
          if_holds P
            (not (is_ui_state i.ui_state new_chat_landing)
              || not (is_text (get i.page (text "url")) landing_url)
              || not (is_usable i.page))
            _ _ (λ _ h. cc) (λ shows h. is_text→eq _ landing_url (ground arith)))
        (λ code _ h. cc)

  fenced-IsFirstSend :
      i.page ≡ get i.browser (text "current")
      → IsCleared js i
      → IsFenced js i
      → target_matches_request i ≡ true
      → IsFirstSend js i.request i.github i.browser i.now_iso
  unfolding valid_fence validate_fence_commit_receipt
  fenced-IsFirstSend p c f t =
      let fence = f.fence in
      let receipt = f.receipt in
      let seen =
        is_recent→IsBefore (valid_iso_utc js i.now_iso)
          (valid_iso_utc js (get (commit_receipt_of i) (text "observedAt"))) (ground arith) in
      record {
        assigned = cleared-IsAssignedTo js i c;
        target = target-IsOnlyTarget i p t;
        landing = ap (λ q. get q (text "url")) (sym p) ∙ landing-url f.landing;
        durable = same_value→eq _ (bool true) (ground arith);
        generation = is_num→eq _ 1 (ground arith);
        fence_for = request→IsFor (fence_of i) i.request (ground arith);
        fence_execution = same_field→eq (fence_of i) _ i.request _ (ground arith);
        receipt_for = request→IsFor (commit_receipt_of i) i.request (ground arith);
        receipt_execution = same_field→eq (commit_receipt_of i) _ i.request _ (ground arith);
        receipt_fence = same_field→eq (commit_receipt_of i) _ (fence_of i) _ (ground arith);
        receipt_commit = same_field→eq (commit_receipt_of i) _ (fence_of i) _ (ground arith);
        authorized_committed = is_ordered→IsBefore clock_skew_ms _ _ (ground arith);
        committed_received = is_ordered→IsBefore 0 _ _ (ground arith);
        received_now = seen.0;
        now_received = seen.1;
      }

module _ (js : Platform) where
  founded-IsFirstSend :
      (v : Value) (i : BootstrapFenceInput) (r : BootstrapFenceResult)
      → IsReading v i
      → IsCleared js i
      → Rests js i r
      → r.code ≡ first_send_cas_candidate
      → IsFirstSend js
          (get v (text "request"))
          (get v (text "github"))
          (get v (text "browser"))
          (get v (text "nowIso"))
  unfolding candidate
  founded-IsFirstSend v i r reading c (reevaluates u e) k =
      let same = sym k ∙ ap (λ x. x.code) e in cc
  founded-IsFirstSend v i r reading c (prepares u p t e) k =
      let same = sym k ∙ ap (λ x. x.code) e in cc
  founded-IsFirstSend v i r reading c (sends f t e) k =
      rw (← reading.request, ← reading.github, ← reading.browser, ← reading.now_iso)
        (fenced-IsFirstSend js i
          (reading.page ∙ ap (λ b. get b (text "current")) (sym reading.browser)) c f t)
  founded-IsFirstSend v i r reading c (confirms id q t e) k =
      let same = sym k ∙ ap (λ x. x.code) e in cc

  -- A candidate for the first send is given only where the worker is the only one of the pull
  -- request and has no other, at the request's head and attempt; the durable fence of generation 1
  -- and the receipt of its commit are for the request's attempt, worker, head, target, profile, tab
  -- and execution, and name one fence and one commit; the target is isolated, not shared, and the
  -- only one, its page the request's, at the address of a new chat; and the fence was committed
  -- after the attempt
  -- was authorized, up to the skew of two seconds, and before the receipt was seen, which is at
  -- most
  -- ten seconds old and, up to the skew, not in the future.
  pub evaluate_sends-IsFirstSend :
      (v : Value)
      → (evaluate_bootstrap_fence js v).decision ≡ candidate_only
      → (evaluate_bootstrap_fence js v).code ≡ first_send_cas_candidate
      → IsFirstSend js
          (get v (text "request"))
          (get v (text "github"))
          (get v (text "browser"))
          (get v (text "nowIso"))
  evaluate_sends-IsFirstSend v d k =
      let found = evaluate-Found js v d in
      founded-IsFirstSend v found.input (evaluate_bootstrap_fence js v) found.reading found.cleared
        found.rests k
