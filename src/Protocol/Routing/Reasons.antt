-- ===== src/Protocol/Routing/Reasons.antt =====
-- The reasons that `routeGitHubPullRequest` of `cloudflare-relay/src/protocol.js` gives a wake.
use bke_worker.Prelude.{sym, arith, ◌≢◌, true, false, Option, ◌≡◌, ◌++◌, ℕ, refl, ◌⊎◌, inl, inr}
use bke_worker.Protocol.Routing.{reason_for, routing_actions}
use bke_worker.Text.{includes, text, Text, has_text, text_eq}
use bke_worker.Js.Value.{text_or_none, get, text_or_empty, Value}
use bke_worker.Protocol.Patterns.{control_repository, is_reason}
use bke_worker.Js.Reads.{has_text→holds}
use bke_worker.Text.Equality.{text_eq_refl}
use bke_worker.Protocol.Routing.Edits.{
  cross_pr_recovery_marker, is_new, continuation_marker, recovery_marker, marker_head,
  has_continuation, edit_reason, marked,
}

abbrev pub plain_reason : Text → Text
plain_reason action = text "github_pull_request_" ++ action

abbrev pub self_synchronize : Text
self_synchronize = text "github_pull_request_self_synchronize"

abbrev pub cross_pr_recovery : Text
cross_pr_recovery = text "github_pull_request_cross_pr_recovery"

abbrev pub continuation : Text
continuation = text "github_pull_request_continuation"

abbrev pub body_of : Value → Text
body_of payload = text_or_empty (get (get payload (text "pull_request")) (text "body"))

abbrev pub prior_body_of : Value → Option Text
prior_body_of payload =
    text_or_none (get (get (get payload (text "changes")) (text "body")) (text "from"))

-- The two ways an edit wakes a worker.
abbrev pub IsMarked :
    (worker_id : Text)
    → ℕ
    → (head_sha body : Text) → (prior : Option Text) → (reason : Text) → Type 0
IsMarked worker_id n head_sha body prior reason =
    ((reason ≡ continuation)
      × (has_continuation
            (marker_head continuation_marker worker_id n head_sha ++ text " generation=") body
          ≡ true)
      × (is_new prior continuation_marker ≡ true))
    ⊎ ((reason ≡ cross_pr_recovery)
        × (includes body (recovery_marker worker_id n head_sha) ≡ true)
        × (is_new prior cross_pr_recovery_marker ≡ true))

marked_inj : (a b : Text) → marked a ≡ marked b → a ≡ b
marked_inj a b h = cc

edit_reason-marked :
    (repository worker_id : Text) (n : ℕ) (head_sha body : Text) (prior : Option Text)
    (reason : Text)
    → edit_reason repository worker_id n head_sha body prior ≡ marked reason
    → (text_eq repository control_repository ≡ true)
      × IsMarked worker_id n head_sha body prior reason
unfolding edit_reason
edit_reason-marked repository worker_id n head_sha body prior reason h = ground arith

module _ (lower : Text → Text) (repository label worker_id : Text) (n : ℕ) (action head_sha : Text)
    (payload pull_request : Value) where
  reason_for-cases :
      (reason : Text)
      → reason_for lower repository label worker_id n action head_sha payload pull_request
        ≡ inr reason
      → (reason ≡ self_synchronize)
        ⊎ ((reason ≡ plain_reason action)
            ⊎ (edit_reason repository worker_id n head_sha
                  (text_or_empty (get pull_request (text "body")))
                  (text_or_none
                    (get (get (get payload (text "changes")) (text "body")) (text "from")))
                ≡ marked reason))
  unfolding reason_for
  reason_for-cases reason h = ground arith

plain_reason-IsReason :
    (action : Text)
    → has_text routing_actions action ≡ true
    → is_reason (plain_reason action) ≡ true
unfolding text is_reason
plain_reason-IsReason action =
    has_text→holds (λ a. is_reason (plain_reason a) ≡ true) routing_actions
      (refl, (refl, (refl, (refl, (refl, tt))))) action

plain_reason-marks_nothing :
    (action : Text)
    → has_text routing_actions action ≡ true
    → (text_eq (plain_reason action) cross_pr_recovery ≡ false)
      × (text_eq (plain_reason action) continuation ≡ false)
unfolding text text_eq
plain_reason-marks_nothing action =
    has_text→holds
      (λ a.
        (text_eq (plain_reason a) cross_pr_recovery ≡ false)
        × (text_eq (plain_reason a) continuation ≡ false))
      routing_actions
      ((refl, refl), ((refl, refl), ((refl, refl), ((refl, refl), ((refl, refl), tt))))) action

pub reason_for-IsReason :
    (lower : Text → Text) (repository label worker_id : Text) (n : ℕ) (action head_sha : Text)
    (payload pull_request : Value) (reason : Text)
    → has_text routing_actions action ≡ true
    → reason_for lower repository label worker_id n action head_sha payload pull_request
      ≡ inr reason
    → is_reason reason ≡ true
unfolding is_reason text
reason_for-IsReason lower repository label worker_id n action head_sha payload pull_request reason
      listed h =
    elim (reason_for-cases lower repository label worker_id n action head_sha payload pull_request
      reason h) [
        | inl own ↦ rw own refl
        | inr (inl plain) ↦ rw plain (plain_reason-IsReason action listed)
        | inr (inr edited) ↦ elim ((edit_reason-marked _ _ _ _ _ _ _ edited).1) [
          | inl (is_continuation, matched, fresh) ↦ rw is_continuation refl
          | inr (is_recovery, found, fresh) ↦ rw is_recovery refl
        ]
      ]

differ : (s t : Text) → text_eq s t ≡ false → s ≢ t
differ s t h e = ground (arith, text_eq_refl t)

pub reason_for-recovery :
    (lower : Text → Text) (repository label worker_id : Text) (n : ℕ) (action head_sha : Text)
    (payload pull_request : Value)
    → has_text routing_actions action ≡ true
    → reason_for lower repository label worker_id n action head_sha payload pull_request
      ≡ inr cross_pr_recovery
    → (text_eq repository control_repository ≡ true)
      × (includes
            (text_or_empty (get pull_request (text "body")))
            (recovery_marker worker_id n head_sha)
          ≡ true)
      × (is_new
            (text_or_none (get (get (get payload (text "changes")) (text "body")) (text "from")))
            cross_pr_recovery_marker
          ≡ true)
unfolding text text_eq
reason_for-recovery lower repository label worker_id n action head_sha payload pull_request listed
      h =
    elim (reason_for-cases lower repository label worker_id n action head_sha payload pull_request _
      h) [
        | inl own ↦ absurd (differ cross_pr_recovery self_synchronize refl own)
        | inr (inl plain) ↦
            absurd (differ _ _ (plain_reason-marks_nothing action listed).0 (sym plain))
        | inr (inr edited) ↦
            let (control, why) = edit_reason-marked _ _ _ _ _ _ _ edited in
            elim why [
              | inl (is_continuation, matched, fresh) ↦
                  absurd (differ cross_pr_recovery continuation refl is_continuation)
              | inr (is_recovery, found, fresh) ↦ (control, found, fresh)
            ]
      ]
