-- ===== src/Attempt/Fresh/Candidate.antt =====
-- What a candidate of `browser-extension/src/fresh-attempt-gate.ts` rests on.
use bke_worker.Attempt.Platform.{
  valid_iso_utc, clock_skew_ms, conversation_id_from_url, same_field, Platform,
}
use bke_worker.Attempt.Fresh.Shape.{read_input, evaluate_fresh_attempt}
use bke_worker.Prelude.{
  refl, subst, ◌∙◌, sym, ap, arith, ◌∷◌, option_holds, ◌≢◌, if_holds, false, some, guard_holds,
  true, ◌≡◌,
}
use bke_worker.Js.Value.{elements, text_or_empty, num, is_text, get, str, same_value, Value}
use bke_worker.Text.{text, Text}
use bke_worker.Attempt.Bootstrap.Agreement.{same_field→eq, IsAssignedTo}
use bke_worker.Text.Equality.{text_eq_refl}
use bke_worker.Js.Integer.{pos}
use bke_worker.Protocol.Assignments.{is_truthy}
use bke_worker.Attempt.Remembered.{conversation_id_from_url-identifier, added-IsHistory, IsHistory}
use bke_worker.Attempt.Times.{IsBefore-trans, IsBefore, is_ordered→IsBefore}
use bke_worker.Attempt.History.{texts}
use bke_worker.Js.Reads.{is_text→eq, is_num→eq}
use bke_worker.Attempt.Fresh.{
  parsed_date, is_observed_lately, confirmation_of, is_timely, shows_chat, is_reused,
  conversation_at, is_confirmed_id, is_confirmation, is_sole_target, evaluate_conversation,
  has_known_history, evaluate_target, is_assigned, evaluate_input, candidate_decision, GateCode,
  FreshAttemptInput, FreshAttemptResult, blocked,
}

-- The evidence that the page shows the new conversation `id` of the request's attempt.
pub record IsFreshConversation (js : Platform) (request github target now_iso : Value) (id : Text)
    : Type 0 where
  pub assigned : IsAssignedTo request github
  pub undelivered : get github (text "currentAttemptDelivery") ≡ str (text "NOT_SENT")
  pub one_target : get target (text "matchingWritableTargetCount") ≡ num (pos 1)
  pub page_tab :
      get (get target (text "current")) (text "tabId") ≡ get target (text "ownedTargetTabId")
  pub confirmed_attempt :
      get (get target (text "newConversation")) (text "attemptId") ≡ get request (text "attemptId")
  pub confirmed_worker :
      get (get target (text "newConversation")) (text "workerId") ≡ get request (text "workerId")
  pub confirmed_head :
      get (get target (text "newConversation")) (text "headSha") ≡ get request (text "headSha")
  pub confirmed_tab :
      get (get target (text "newConversation")) (text "targetTabId")
      ≡ get target (text "ownedTargetTabId")
  pub confirmed_id : get (get target (text "newConversation")) (text "newConversationId") ≡ str id
  pub shown :
      conversation_id_from_url js (text_or_empty (get (get target (text "current")) (text "url")))
      ≡ some id
  pub apart_from_previous : get github (text "previousConversationId") ≢ str id
  pub history : IsHistory (id ∷ texts (elements (get github (text "priorConversationIds"))))
  pub authorized_started :
      IsBefore clock_skew_ms
        (valid_iso_utc js (get github (text "attemptAuthorizedAt")))
        (valid_iso_utc js (get (get target (text "newConversation")) (text "creationStartedAt")))
  pub authorized_confirmed :
      IsBefore clock_skew_ms
        (valid_iso_utc js (get github (text "attemptAuthorizedAt")))
        (valid_iso_utc js (get (get target (text "newConversation")) (text "confirmedAt")))
  pub confirmed_now :
      IsBefore clock_skew_ms
        (valid_iso_utc js (get (get target (text "newConversation")) (text "confirmedAt")))
        (parsed_date js now_iso)

-- The tests that a candidate passed.
record IsPassed (js : Platform) (i : FreshAttemptInput) (id : Text) : Type 0 where
  assigned : is_assigned i ≡ true
  head : same_field i.github (text "currentHeadSha") i.request (text "headSha") ≡ true
  attempt : same_field i.github (text "currentAttemptId") i.request (text "attemptId") ≡ true
  undelivered : is_text (get i.github (text "currentAttemptDelivery")) (text "NOT_SENT") ≡ true
  known : has_known_history i ≡ true
  sole : is_sole_target i ≡ true
  confirmation : is_confirmation i ≡ true
  shown : conversation_at js i.page (text "url") ≡ some id
  confirmed : is_confirmed_id js i id ≡ true
  unused : is_reused js i id ≡ false
  timely : is_timely js i ≡ true

abbrev Explains : Type 0 → FreshAttemptResult → Type 0
Explains P r = r.decision ≡ candidate_decision → P

stops : {P : Type 0} (c : GateCode) → Explains P (blocked c)
unfolding blocked
stops c d = cc

module _ (js : Platform) (i : FreshAttemptInput) where
  evaluate_input-IsPassed : Explains ((id : Text) × IsPassed js i id) (evaluate_input js i)
  unfolding evaluate_input evaluate_target evaluate_conversation
  evaluate_input-IsPassed =
      let P : FreshAttemptResult → Type 0 = Explains ((id : Text) × IsPassed js i id) in
      guard_holds P (is_assigned i) _ _ (λ _. stops _)
        λ assigned.
          guard_holds P (same_field i.github (text "currentHeadSha") i.request (text "headSha")) _ _
            (λ _. stops _)
            λ head.
              guard_holds P (is_truthy (get i.github (text "prOpen"))) _ _ (λ _. stops _)
                λ _.
                  guard_holds P
                    (same_field i.github (text "currentAttemptId") i.request (text "attemptId")) _ _
                    (λ _. stops _)
                    λ attempt.
                      guard_holds P (is_truthy (get i.github (text "previousAttemptResolved"))) _ _
                        (λ _. stops _)
                        λ _.
                          guard_holds P
                            (is_text (get i.github (text "currentAttemptDelivery"))
                              (text "NOT_SENT"))
                            _ _ (λ _. stops _)
                            λ undelivered.
                              guard_holds P (has_known_history i) _ _ (λ _. stops _)
                                λ known.
                                  guard_holds P (is_sole_target i) _ _ (λ _. stops _)
                                    λ sole.
                                      guard_holds P (shows_chat js i) _ _ (λ _. stops _)
                                        λ _.
                                          if_holds P (is_truthy (get i.page (text "turnBusy"))) _ _
                                            (λ _. stops _)
                                            λ _.
                                              guard_holds P (is_observed_lately js i) _ _
                                                (λ _. stops _)
                                                λ _.
                                                  guard_holds P (is_confirmation i) _ _
                                                    (λ _. stops _)
                                                    λ confirmation.
                                                      option_holds P
                                                        (conversation_at js i.page (text "url")) _ _
                                                        (λ _. stops _)
                                                        λ id shown.
                                                          guard_holds P (is_confirmed_id js i id) _
                                                            _ (λ _. stops _)
                                                            λ ok.
                                                            if_holds P (is_reused js i id) _ _
                                                            (λ _. stops _)
                                                            λ unused.
                                                            guard_holds P (is_timely js i) _ _
                                                            (λ _. stops _)
                                                            λ timely d. (
                                                            id,
                                                            record {
                                                            assigned = assigned;
                                                            head = head;
                                                            attempt = attempt;
                                                            undelivered = undelivered;
                                                            known = known;
                                                            sole = sole;
                                                            confirmation = confirmation;
                                                            shown = shown;
                                                            confirmed = ok;
                                                            unused = unused;
                                                            timely = timely;
                                                            },
                                                            )

  same_value-text : (v : Value) (id : Text) → v ≡ str id → same_value (str id) v ≡ true
  unfolding same_value
  same_value-text v id e = rw e (text_eq_refl id)

  passed-IsFreshConversation :
      (id : Text)
      → i.page ≡ get i.target (text "current")
      → IsPassed js i id
      → IsFreshConversation js i.request i.github i.target i.now_iso id
  unfolding is_assigned has_known_history is_sole_target is_confirmation is_confirmed_id is_reused
      is_timely conversation_at
  passed-IsFreshConversation id p h =
      let assigned = h.assigned in
      let known = h.known in
      let sole = h.sole in
      let confirmation = h.confirmation in
      let ok = h.confirmed in
      let unused = h.unused in
      let timely = h.timely in
      let c : Value = confirmation_of i in
      let start =
        is_ordered→IsBefore clock_skew_ms
          (valid_iso_utc js (get i.github (text "attemptAuthorizedAt")))
          (valid_iso_utc js (get c (text "creationStartedAt"))) (ground arith) in
      let end_ =
        is_ordered→IsBefore 0 (valid_iso_utc js (get c (text "creationStartedAt")))
          (valid_iso_utc js (get c (text "confirmedAt"))) (ground arith) in
      record {
        assigned = record {
          repository = same_field→eq i.github _ i.request _ (ground arith);
          pr_number = same_field→eq i.github _ i.request _ (ground arith);
          worker = same_field→eq i.github _ i.request _ (ground arith);
          only_worker = is_num→eq _ 1 (ground arith);
          only_pull_request = is_num→eq _ 1 (ground arith);
          head = same_field→eq i.github _ i.request _ h.head;
          attempt = same_field→eq i.github _ i.request _ h.attempt;
        };
        undelivered = is_text→eq _ _ h.undelivered;
        one_target = is_num→eq _ 1 (ground arith);
        page_tab =
            ap (λ q. get q (text "tabId")) (sym p)
            ∙ same_field→eq i.page _ i.target _ (ground arith);
        confirmed_attempt = same_field→eq (confirmation_of i) _ i.request _ (ground arith);
        confirmed_worker = same_field→eq (confirmation_of i) _ i.request _ (ground arith);
        confirmed_head = same_field→eq (confirmation_of i) _ i.request _ (ground arith);
        confirmed_tab = same_field→eq (confirmation_of i) _ i.target _ (ground arith);
        confirmed_id = is_text→eq _ id (ground arith);
        shown =
            ap (λ q. conversation_id_from_url js (text_or_empty (get q (text "url")))) (sym p)
            ∙ h.shown;
        apart_from_previous = λ e.
            ground (arith, same_value-text (get i.github (text "previousConversationId")) id e);
        history =
            added-IsHistory (get i.github (text "priorConversationIds")) id (ground arith)
              (conversation_id_from_url-identifier js _ id h.shown) (ground arith);
        authorized_started = start;
        authorized_confirmed = IsBefore-trans clock_skew_ms 0 _ _ _ start end_;
        confirmed_now = is_ordered→IsBefore clock_skew_ms _ _ (ground arith);
      }

-- What is read, if the input has the shape.
abbrev parts : Value → FreshAttemptInput
parts v = record {
  request = get v (text "request");
  github = get v (text "github");
  target = get v (text "browser");
  page = get (get v (text "browser")) (text "current");
  now_iso = get v (text "nowIso");
}

read_input-parts : (v : Value) (i : FreshAttemptInput) → read_input v ≡ some i → parts v ≡ i
unfolding read_input
read_input-parts v i h = ground arith

module _ (js : Platform) where
  -- A candidate is given only where the worker is the only one of the pull request and has no
  -- other,
  -- at the request's head and attempt, of which nothing was sent; the one writable target's tab is
  -- the page's, and the confirmation is for it and for the request's attempt, worker and head; the
  -- URL of the page and the confirmation name one conversation, which is not the previous one and
  -- with which the history still is a list of distinct identifiers; and, up to the skew of two
  -- seconds, its creation neither began nor was confirmed before the attempt was authorized, nor
  -- was
  -- it confirmed in the future.
  pub evaluate_fresh_attempt-IsFreshConversation :
      (v : Value)
      → (evaluate_fresh_attempt js v).decision ≡ candidate_decision
      → (id : Text) × IsFreshConversation js
          (get v (text "request"))
          (get v (text "github"))
          (get v (text "browser"))
          (get v (text "nowIso"))
          id
  unfolding evaluate_fresh_attempt
  evaluate_fresh_attempt-IsFreshConversation v =
      option_holds
        (Explains (
          (id : Text) × IsFreshConversation js (get v (text "request")) (get v (text "github"))
            (get v (text "browser")) (get v (text "nowIso")) id))
        (read_input v) _ _ (λ _. stops _)
        λ i reads d.
          let same = read_input-parts v i reads in
          let (id, passed) =
            evaluate_input-IsPassed js (parts v)
              (subst (λ x. (evaluate_input js x).decision ≡ candidate_decision) (sym same) d) in
          (id, passed-IsFreshConversation js (parts v) id refl passed)
