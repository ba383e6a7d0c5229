-- ===== src/Target/Calls/Moves.antt =====
-- Every step of a call of `browser-extension/src/target-binding.ts` keeps what the binding shows.
use bke_worker.Target.State.{
  idle, rechecking, ran, running, returned, proving, observing_frame, observing_tabs, selecting,
  Selected, invalidate, frame, reading_frame, is_unset_or, tabs, reading_tabs, same_owner,
  is_selected, Resumed, observation, Result, Reading, Call, Binding, done,
}
use bke_worker.Target.Proving.{
  resume, is_unchanged, resume_inner, finish_current, after_proof, start_current, start_proof,
  after_run, after_recheck,
}
use bke_worker.Target.Selecting.{is_sender, observe}
use bke_worker.Text.{text, Text}
use bke_worker.Target.Calls.Fits.{
  fit_same, finish_observe-Fits, after_list-Fits, page_url, fit_drop, CallIn, generation_of,
  fit_stay, fit_wrap, Fits,
}
use bke_worker.Js.Value.{str, same_value, get, text_or_empty, Value}
use bke_worker.Target.Page.{is_chat_text, is_chat_url, frame_matches, census}
use bke_worker.Js.Reads.{is_text_where→eq}
use bke_worker.Text.Equality.{text_eq→eq}
use bke_worker.Prelude.{
  subst, arith, not, ◌&&◌, ◌==◌, option_holds, Bool, if_holds, Option, none, some, true, false, ◌≡◌,
  refl,
}

same_value-text : (t : Text) (v : Value) → same_value (str t) v ≡ true → t ≡ text_or_empty v
unfolding same_value text_or_empty
same_value-text t (str s) h = text_eq→eq t s h
same_value-text t v h = cc

-- The sender is at the URL that its page reports.
same_url :
    (origin : Text → Option Text) (extension_id : Text) (s : Selected) (payload sender : Value)
    → is_sender origin extension_id s payload sender ≡ true
    → text_or_empty (get sender (text "url")) ≡ page_url payload
unfolding is_sender is_chat_url
same_url origin extension_id s payload sender h =
    let url = get sender (text "url") in
    let is_string = is_text_where→eq (is_chat_text origin) url (ground arith) in
    same_value-text (text_or_empty url) (get payload (text "url"))
      (subst (λ v. same_value v (get payload (text "url")) ≡ true) is_string (ground arith))

module _ (b : Binding) (before : Call) where
  pub observe-Fits :
      (origin : Text → Option Text) (extension_id : Text) (payload sender : Value) (id key : Text)
      → Fits b before (observe origin extension_id b payload sender id key)
  unfolding observe
  observe-Fits origin extension_id payload sender id key =
      option_holds (Fits b before) b.selected _ _ (λ unset. fit_stay _ refl tt)
        λ s set.
          if_holds (Fits b before) (not (same_owner s id key)) _ _ (λ e. fit_drop _ refl tt)
            λ owner.
              if_holds (Fits b before) (not (is_sender origin extension_id s payload sender)) _ _
                (λ e. fit_drop _ refl tt)
                λ sent.
                  if_holds (Fits b before)
                    (not
                      (is_unset_or s.document_id (text_or_empty (get sender (text "documentId")))))
                    _ _ (λ e. fit_drop _ refl tt)
                    λ document.
                      if_holds (Fits b before)
                        (not (is_unset_or s.url (text_or_empty (get sender (text "url"))))) _ _
                        (λ e. fit_drop _ refl tt)
                        λ url.
                          fit_stay _ refl
                            (same_url origin extension_id s payload sender (ground arith))

  pub start_current-Fits : (id key : Text) → Fits b before (start_current b id key)
  unfolding start_current
  start_current-Fits id key =
      option_holds (Fits b before) b.selected _ _ (λ unset. fit_stay _ refl tt)
        λ s set.
          option_holds (Fits b before) b.status _ _ (λ unset. fit_stay _ refl tt)
            λ st seen.
              if_holds (Fits b before) (not (same_owner s id key)) _ _ (λ e. fit_drop _ refl tt)
                λ owner.
                  option_holds (Fits b before) s.document_id _ _ (λ unset. fit_drop _ refl tt)
                    λ document_id there.
                      option_holds (Fits b before) s.url _ _ (λ unset. fit_drop _ refl tt)
                        λ url known. fit_stay _ refl tt

  pub start_proof-Fits : (id key : Text) → Fits b before (start_proof b id key)
  unfolding start_proof
  start_proof-Fits id key =
      option_holds (Fits b before) b.selected _ _ (λ unset. fit_stay _ refl tt)
        λ s set.
          option_holds (Fits b before) b.status _ _ (λ unset. fit_stay _ refl tt)
            λ st seen. fit_wrap _ refl tt (start_current-Fits id key)

  finish_current-Fits : (r : Reading) → Fits b before (finish_current b r)
  unfolding finish_current
  finish_current-Fits r =
      if_holds (Fits b before) (b.generation == r.started && is_selected b.selected r.snapshot) _ _
        (λ e. fit_stay _ refl tt) (λ e. fit_stay _ refl tt)

  after_proof-Fits :
      (o : Reading) (id key : Text) (r : Result) → Fits b before (after_proof b o id key r)
  unfolding after_proof
  after_proof-Fits o id key (observation (some st)) =
      if_holds (Fits b before) (is_unchanged b o) _ _ (λ e. fit_stay _ refl tt)
        (λ e. fit_stay _ refl tt)
  after_proof-Fits o id key r = fit_stay _ refl tt

  after_run-Fits : (o : Reading) (id key : Text) (f : Bool) → Fits b before (after_run b o id key f)
  unfolding after_run
  after_run-Fits o id key true = fit_wrap _ refl tt (start_current-Fits id key)
  after_run-Fits o id key false = fit_stay _ refl tt

  after_recheck-Fits : (o : Reading) (r : Result) → Fits b before (after_recheck b o r)
  unfolding after_recheck
  after_recheck-Fits o (observation (some st)) =
      if_holds (Fits b before) (st.identity == o.seen.identity && is_unchanged b o) _ _
        (λ e. fit_stay _ refl tt) (λ e. fit_stay _ refl tt)
  after_recheck-Fits o r = fit_stay _ refl tt

  module _ (origin : Text → Option Text) where
    -- The `current` that a proof calls.
    inner-Fits :
        (c : Call) (answer : Resumed)
        → generation_of c ≡ none
        → CallIn b c
        → Fits b before (resume_inner origin b c answer)
    unfolding resume_inner
    inner-Fits (reading_tabs r d u) (tabs answer) quiet h =
        if_holds (Fits b before) (census origin answer r.snapshot.tab_id u) _ _
          (λ e. fit_stay _ refl tt) (λ e. fit_drop _ refl tt)
    inner-Fits (reading_frame r d u) (frame answer) quiet h =
        if_holds (Fits b before) (frame_matches answer d u) _ _ (λ e. finish_current-Fits r)
          (λ e. fit_drop _ refl tt)
    inner-Fits c answer quiet h = fit_stay c quiet h

    -- A call that waits for an inner one.
    wrapped-Fits :
        (c : Call) (answer : Resumed) (w : Call)
        → generation_of w ≡ none
        → ((d : Binding) → CallIn d w)
        → Fits b before ((resume_inner origin b c answer).0, w)
    unfolding resume_inner
    wrapped-Fits (reading_tabs r d u) (tabs answer) w quiet fine =
        if_holds (λ (a : Binding × Call). Fits b before (a.0, w))
          (census origin answer r.snapshot.tab_id u) _ _ (λ e. fit_stay w quiet (fine b))
          (λ e. fit_drop w quiet (fine (invalidate b)))
    wrapped-Fits (reading_frame r d u) (frame answer) w quiet fine =
        if_holds (λ (a : Binding × Call). Fits b before (a.0, w)) (frame_matches answer d u) _ _
          (λ e. fit_wrap w quiet (fine (finish_current b r).0) (finish_current-Fits r))
          (λ e. fit_drop w quiet (fine (invalidate b)))
    wrapped-Fits c answer w quiet fine = fit_stay w quiet (fine b)

module _ (origin : Text → Option Text) (b : Binding) where
  pub resume-Fits : (c : Call) (answer : Resumed) → CallIn b c → Fits b c (resume origin b c answer)
  unfolding resume resume_inner
  resume-Fits (selecting id key g e) (tabs answer) h = after_list-Fits b origin id key g e answer h
  resume-Fits (selecting id key g e) answer h = fit_same b (selecting id key g e) h
  resume-Fits (observing_tabs o) (tabs answer) h =
      if_holds (Fits b (observing_tabs o)) (census origin answer o.current.tab_id o.url) _ _
        (λ e. fit_stay _ refl h) (λ e. fit_drop _ refl tt)
  resume-Fits (observing_tabs o) answer h = fit_stay _ refl h
  resume-Fits (observing_frame o) (frame answer) h =
      if_holds (Fits b (observing_frame o)) (frame_matches answer o.document_id o.url) _ _
        (λ e. finish_observe-Fits b (observing_frame o) o h) (λ e. fit_drop _ refl tt)
  resume-Fits (observing_frame o) answer h = fit_stay _ refl h
  resume-Fits (proving o w k (returned r)) done h = after_proof-Fits b _ o w k r
  resume-Fits (proving o w k inner) answer h =
      wrapped-Fits b (proving o w k inner) origin inner answer _ refl (λ d. tt)
  resume-Fits (running o w k) (ran f) h = after_run-Fits b _ o w k f
  resume-Fits (running o w k) answer h = fit_stay _ refl tt
  resume-Fits (rechecking o w k (returned r)) done h = after_recheck-Fits b _ o r
  resume-Fits (rechecking o w k inner) answer h =
      wrapped-Fits b (rechecking o w k inner) origin inner answer _ refl (λ d. tt)
  resume-Fits (reading_tabs r d u) answer h =
      inner-Fits b _ origin (reading_tabs r d u) answer refl tt
  resume-Fits (reading_frame r d u) answer h =
      inner-Fits b _ origin (reading_frame r d u) answer refl tt
  resume-Fits idle answer h = fit_stay _ refl tt
  resume-Fits (returned r) answer h = fit_stay _ refl tt
