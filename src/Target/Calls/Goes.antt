-- ===== src/Target/Calls/Goes.antt =====
-- Every step of a call of `browser-extension/src/target-binding.ts` leads to a later binding.
use bke_worker.Target.State.{
  done, is_unset_or, same_owner, rechecking, ran, running, returned, proving, frame,
  observing_frame, observing_tabs, reading_frame, tabs, observation, selecting, reading_tabs,
  Result, Resumed, Reading, Call, Observing, is_selected, invalidate, Binding,
}
use bke_worker.Target.Selecting.{is_sender, observe, select, finish_observe, after_list}
use bke_worker.Target.Proving.{
  is_unchanged, resume, resume_inner, after_recheck, after_proof, start_proof, after_run,
  finish_current, start_current,
}
use bke_worker.Prelude.{false}
use bke_worker.Text.{text, text_eq, Text}
use bke_worker.Js.Value.{get, text_or_empty, Value}
use bke_worker.Target.Page.{is_sha256, frame_matches, census, only_safe_tab}
use bke_worker.Protocol.Patterns.{is_worker_id}
use bke_worker.Prelude.{◌&&◌, not, none, Bool, ◌==◌, some, if_holds, option_holds, Option, ℕ, true}
use bke_worker.Target.Calls.Later.{
  IsLater, IsLater-refl, invalidate-IsLater, put_selected-IsLater, put_observed-IsLater,
}

-- Every step of a call.
pub record Goes (b : Binding) (next : Binding × Call) : Type 0 where
  pub later : IsLater b next.0

go : {b c : Binding} {call : Call} → IsLater b c → Goes b (c, call)
go p = record { later = p }

module _ (b : Binding) where
  stays : {call : Call} → Goes b (b, call)
  stays = go (IsLater-refl b)

  drops : {call : Call} → Goes b (invalidate b, call)
  drops = go (invalidate-IsLater b)

  pub select-Goes : (trim : Text → Text) (id key : Text) → Goes b (select trim b id key)
  unfolding select
  select-Goes trim id key =
      if_holds (Goes b) (is_worker_id (trim id) && text_eq (trim id) id && is_sha256 key) _ _
        (λ e. drops) (λ e. drops)

  after_list-Goes :
      (origin : Text → Option Text) (id key : Text) (g n : ℕ) (answer : Option Value)
      → Goes b (after_list origin b id key g n answer)
  unfolding after_list
  after_list-Goes origin id key g n none = stays
  after_list-Goes origin id key g n (some listed) =
      if_holds (Goes b) (not (b.generation == g && b.navigation_epoch == n)) _ _ (λ e. stays)
        λ e.
          option_holds (Goes b) (only_safe_tab origin listed) _ _ (λ missing. stays)
            (λ tab there. go (put_selected-IsLater b id key tab))

  pub observe-Goes :
      (origin : Text → Option Text) (extension_id : Text) (payload sender : Value) (id key : Text)
      → Goes b (observe origin extension_id b payload sender id key)
  unfolding observe
  observe-Goes origin extension_id payload sender id key =
      option_holds (Goes b) b.selected _ _ (λ unset. stays)
        λ s set.
          if_holds (Goes b) (not (same_owner s id key)) _ _ (λ e. drops)
            λ owner.
              if_holds (Goes b) (not (is_sender origin extension_id s payload sender)) _ _
                (λ e. drops)
                λ sent.
                  if_holds (Goes b)
                    (not
                      (is_unset_or s.document_id (text_or_empty (get sender (text "documentId")))))
                    _ _ (λ e. drops)
                    λ document.
                      if_holds (Goes b)
                        (not (is_unset_or s.url (text_or_empty (get sender (text "url"))))) _ _
                        (λ e. drops) λ url. stays

  finish_observe-Goes : (o : Observing) → Goes b (finish_observe b o)
  unfolding finish_observe
  finish_observe-Goes o =
      if_holds (Goes b) (b.generation == o.started && is_selected b.selected o.current) _ _
        (λ e. go (put_observed-IsLater b o)) (λ e. stays)

  pub start_current-Goes : (id key : Text) → Goes b (start_current b id key)
  unfolding start_current
  start_current-Goes id key =
      option_holds (Goes b) b.selected _ _ (λ unset. stays)
        λ s set.
          option_holds (Goes b) b.status _ _ (λ unset. stays)
            λ st seen.
              if_holds (Goes b) (not (same_owner s id key)) _ _ (λ e. drops)
                λ owner.
                  option_holds (Goes b) s.document_id _ _ (λ unset. drops)
                    λ document_id there.
                      option_holds (Goes b) s.url _ _ (λ unset. drops) λ url known. stays

  finish_current-Goes : (r : Reading) → Goes b (finish_current b r)
  unfolding finish_current
  finish_current-Goes r =
      if_holds (Goes b) (b.generation == r.started && is_selected b.selected r.snapshot) _ _
        (λ e. stays) (λ e. stays)

  pub start_proof-Goes : (id key : Text) → Goes b (start_proof b id key)
  unfolding start_proof
  start_proof-Goes id key =
      option_holds (Goes b) b.selected _ _ (λ unset. stays)
        λ s set.
          option_holds (Goes b) b.status _ _ (λ unset. stays)
            λ st seen. go (start_current-Goes id key).later

  after_proof-Goes : (o : Reading) (id key : Text) (r : Result) → Goes b (after_proof b o id key r)
  unfolding after_proof
  after_proof-Goes o id key (observation (some st)) =
      if_holds (Goes b) (is_unchanged b o) _ _ (λ e. stays) (λ e. stays)
  after_proof-Goes o id key r = stays

  after_run-Goes : (o : Reading) (id key : Text) (f : Bool) → Goes b (after_run b o id key f)
  unfolding after_run
  after_run-Goes o id key true = go (start_current-Goes id key).later
  after_run-Goes o id key false = stays

  after_recheck-Goes : (o : Reading) (r : Result) → Goes b (after_recheck b o r)
  unfolding after_recheck
  after_recheck-Goes o (observation (some st)) =
      if_holds (Goes b) (st.identity == o.seen.identity && is_unchanged b o) _ _ (λ e. stays)
        (λ e. stays)
  after_recheck-Goes o r = stays

module _ (origin : Text → Option Text) (b : Binding) where
  resume_inner-Goes : (c : Call) (answer : Resumed) → Goes b (resume_inner origin b c answer)
  unfolding resume_inner
  resume_inner-Goes (reading_tabs r d u) (tabs answer) =
      if_holds (Goes b) (census origin answer r.snapshot.tab_id u) _ _ (λ e. stays b) (λ e. drops b)
  resume_inner-Goes (reading_frame r d u) (frame answer) =
      if_holds (Goes b) (frame_matches answer d u) _ _ (λ e. finish_current-Goes b r) (λ e. drops b)
  resume_inner-Goes c answer = stays b

  pub resume-Goes : (c : Call) (answer : Resumed) → Goes b (resume origin b c answer)
  unfolding resume
  resume-Goes (selecting w k g e) (tabs answer) = after_list-Goes b origin w k g e answer
  resume-Goes (observing_tabs o) (tabs answer) =
      if_holds (Goes b) (census origin answer o.current.tab_id o.url) _ _ (λ e. stays b)
        (λ e. drops b)
  resume-Goes (observing_frame o) (frame answer) =
      if_holds (Goes b) (frame_matches answer o.document_id o.url) _ _
        (λ e. finish_observe-Goes b o) (λ e. drops b)
  resume-Goes (proving o w k (returned r)) done = after_proof-Goes b o w k r
  resume-Goes (proving o w k inner) answer = go (resume_inner-Goes inner answer).later
  resume-Goes (running o w k) (ran f) = after_run-Goes b o w k f
  resume-Goes (rechecking o w k (returned r)) done = after_recheck-Goes b o r
  resume-Goes (rechecking o w k inner) answer = go (resume_inner-Goes inner answer).later
  resume-Goes c answer = resume_inner-Goes c answer
