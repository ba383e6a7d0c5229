-- ===== src/Attempt/Bootstrap/Permits.antt =====
-- When a first message may be prepared or sent: `browser-extension/src/bootstrap-fence.ts`.
use bke_worker.Attempt.Bootstrap.{
  new_conversation_candidate, first_send_cas_candidate, safe_to_reevaluate_prepare,
  prepare_candidate, candidate_only, blocked_in, blocked, candidate, BootstrapFenceResult,
  BootstrapFenceInput, BootstrapCode,
}
use bke_worker.Js.Value.{str, undefined, get, Value}
use bke_worker.Attempt.Bootstrap.Evaluate.{
  evaluate_input, recover, evaluate_bootstrap_fence, proceed,
}
use bke_worker.Prelude.{
  refl, sym, inr, ap, inl, arith, option_holds, ◌∙◌, ◌⊎◌, false, true, ◌≡◌, Bool,
}
use bke_worker.Attempt.Bootstrap.Named.{read_input-IsReading, state_name, delivery_name, IsReading}
use bke_worker.Text.{text}
use bke_worker.Attempt.Bootstrap.Cleared.{evaluate_input-Comes, IsCleared}
use bke_worker.Attempt.Bootstrap.Candidates.{
  sends, confirms, proceed-Rests, recover-Rests, prepares, reevaluates, undefined→eq, IsUnsent,
  Rests, IsFenced,
}
use bke_worker.Attempt.Bootstrap.Reading.{read_input}
use bke_worker.Attempt.Bootstrap.Fences.{send_claim_of}
use bke_worker.Attempt.Platform.{Platform}

module _ (js : Platform) where
  -- The reading behind a candidate, and what the candidate rests on.
  pub record Found (v : Value) (r : BootstrapFenceResult) : Type 0 where
    pub input : BootstrapFenceInput
    pub reading : IsReading v input
    pub cleared : IsCleared js input
    pub rests : Rests js input r

  recover_or_proceed-Rests :
      (i : BootstrapFenceInput) (r : BootstrapFenceResult)
      → (recover i ≡ r) ⊎ (proceed js i ≡ r)
      → r.decision ≡ candidate_only
      → Rests js i r
  unfolding proceed
  recover_or_proceed-Rests i r (inl e) d = recover-Rests js i r e d
  recover_or_proceed-Rests i r (inr e) d = proceed-Rests js i r e d

  pub evaluate-Found :
      (v : Value)
      → (evaluate_bootstrap_fence js v).decision ≡ candidate_only
      → Found v (evaluate_bootstrap_fence js v)
  unfolding evaluate_bootstrap_fence blocked blocked_in
  evaluate-Found v =
      option_holds (λ r. r.decision ≡ candidate_only → Found v r) (read_input v) _ _ (λ _ d. cc)
        λ i reads d.
          let comes = evaluate_input-Comes js i (evaluate_input js i) refl d in
          record {
            input = i;
            reading = read_input-IsReading v i reads;
            cleared = comes.cleared;
            rests = recover_or_proceed-Rests i _ comes.recovers_or_proceeds d;
          }

-- A candidate that may lead to a message: to prepare, to prepare anew, or to send.
abbrev pub leads_to_message : BootstrapCode → Bool
leads_to_message prepare_candidate = true
leads_to_message safe_to_reevaluate_prepare = true
leads_to_message first_send_cas_candidate = true
leads_to_message c = false

-- GitHub's observation knows of no claim and of no delivery, and either of no fence, before it, or
-- of a fence that is ready.
pub record IsUntouched (github : Value) : Type 0 where
  pub unclaimed : get github (text "sendClaim") ≡ undefined
  pub not_delivered : get github (text "deliveryKnowledge") ≡ str (text "NOT_SENT")
  pub phase :
      ((get github (text "state") ≡ str (text "AUTHORIZED_PREPARE"))
        × (get github (text "fence") ≡ undefined))
      ⊎ (get github (text "state") ≡ str (text "FENCED_READY_TO_SEND"))

module _ (js : Platform) (v : Value) (i : BootstrapFenceInput) (reading : IsReading v i) where
  unsent-IsUntouched : IsCleared js i → IsUnsent i → IsUntouched (get v (text "github"))
  unsent-IsUntouched c u = record {
    unclaimed =
        rw (← reading.github)
          (undefined→eq (send_claim_of i) (ground (arith, c.unclaimed_unless_sent, u.state_is)));
    not_delivered = reading.delivery ∙ ap (λ d. str (delivery_name d)) u.delivery_is;
    phase =
        inl (
          reading.state ∙ ap (λ s. str (state_name s)) u.state_is,
          rw (← reading.github) u.unfenced,
        );
  }

  fenced-IsUntouched : IsFenced js i → IsUntouched (get v (text "github"))
  fenced-IsUntouched f = record {
    unclaimed = rw (← reading.github) f.unclaimed;
    not_delivered = reading.delivery ∙ ap (λ d. str (delivery_name d)) f.delivery_is;
    phase = inr (reading.state ∙ ap (λ s. str (state_name s)) f.state_is);
  }

module _ (js : Platform) where
  founded-IsUntouched :
      (v : Value) (i : BootstrapFenceInput) (r : BootstrapFenceResult)
      → IsReading v i
      → IsCleared js i
      → Rests js i r
      → leads_to_message r.code ≡ true
      → IsUntouched (get v (text "github"))
  unfolding candidate
  founded-IsUntouched v i r reading c (reevaluates u e) leads =
      unsent-IsUntouched js v i reading c u
  founded-IsUntouched v i r reading c (prepares u p t e) leads =
      unsent-IsUntouched js v i reading c u
  founded-IsUntouched v i r reading c (sends f t e) leads = fenced-IsUntouched js v i reading f
  founded-IsUntouched v i r reading c (confirms id k t e) leads =
      let same : leads_to_message new_conversation_candidate ≡ true =
        ap (λ x. leads_to_message x.code) (sym e) ∙ leads in
      cc

  -- Whatever is asked for, a candidate that may lead to a message is given only while GitHub's
  -- observation holds no claim of the first send, says that nothing was delivered, and is either in
  -- the state before the fence, with no fence, or in the state of a fence that is ready. So once a
  -- message was claimed, or may have been delivered, no restart and no event leads to a second one.
  pub evaluate_leads-IsUntouched :
      (v : Value)
      → (evaluate_bootstrap_fence js v).decision ≡ candidate_only
      → leads_to_message (evaluate_bootstrap_fence js v).code ≡ true
      → IsUntouched (get v (text "github"))
  evaluate_leads-IsUntouched v d leads =
      let found = evaluate-Found js v d in
      founded-IsUntouched v found.input (evaluate_bootstrap_fence js v) found.reading found.cleared
        found.rests leads
