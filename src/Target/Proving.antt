-- ===== src/Target/Proving.antt =====
-- `current` and `withCurrentTargetObservation` of `browser-extension/src/target-binding.ts`, cut at
-- each `await`, and how a call of any kind goes on.
use bke_worker.Text.{Text}
use bke_worker.Target.Page.{frame_matches, census}
use bke_worker.Prelude.{◌&&◌, not, false, true, ◌==◌, Option, if◌then◌else◌, Bool, none, some}
use bke_worker.Target.State.{
  Binding, Result, Reading, Call, Resumed, invalidate, same_owner, is_selected, is_status, fail,
  target_census_changed, target_native_observation_unavailable, target_native_proof_uncertain,
  target_native_observation_revoked, proof_done, observation, selecting, observing_tabs,
  observing_frame, reading_tabs, reading_frame, proving, rechecking, running, returned, ran, done,
  tabs, frame,
}
use bke_worker.Target.Selecting.{after_list, finish_observe}

-- `current` up to its first `await`.
unfoldable pub start_current : Binding → (worker_id key_sha256 : Text) → Binding × Call
start_current b worker_id key_sha256 = elim b.selected [
  | none ↦ (b, returned (observation none))
  | some s ↦ elim b.status [
    | none ↦ (b, returned (observation none))
    | some st ↦
        let denied : Binding × Call = (invalidate b, returned (observation none)) in
        if not (same_owner s worker_id key_sha256) then denied else elim s.document_id [
          | none ↦ denied
          | some document_id ↦ elim s.url [
            | none ↦ denied
            | some url ↦ (
              b,
              reading_tabs (record { snapshot = s; seen = st; started = b.generation }) document_id
                  url,
            )
          ]
        ]
  ]
]

-- `current` after both checks have passed.
unfoldable pub finish_current : Binding → Reading → Binding × Call
finish_current b r =
    if b.generation == r.started && is_selected b.selected r.snapshot
    then (b, returned (observation (some r.seen)))
    else (b, returned (observation none))

-- Everything is as when `withCurrentTargetObservation` began.
unfoldable pub is_unchanged : Binding → Reading → Bool
is_unchanged b r =
    is_selected b.selected r.snapshot && is_status b.status r.seen && b.generation == r.started

-- `withCurrentTargetObservation` up to its first `await`, which is one of `current`.
unfoldable pub start_proof : Binding → (worker_id key_sha256 : Text) → Binding × Call
start_proof b worker_id key_sha256 = elim b.selected [
  | none ↦ fail b target_native_observation_unavailable
  | some s ↦ elim b.status [
    | none ↦ fail b target_native_observation_unavailable
    | some st ↦
        let (c, inner) = start_current b worker_id key_sha256 in
        (
          c,
          proving (record { snapshot = s; seen = st; started = b.generation }) worker_id key_sha256
              inner,
        )
  ]
]

-- The first `current` has come to `r`.
unfoldable pub after_proof :
    Binding → Reading → (worker_id key_sha256 : Text) → Result → Binding × Call
after_proof b o worker_id key_sha256 (observation (some st)) =
    if is_unchanged b o
    then (b, running o worker_id key_sha256)
    else fail b target_native_observation_unavailable
after_proof b o worker_id key_sha256 r = fail b target_native_observation_unavailable

-- `run` was fulfilled, or rejected.
unfoldable pub after_run : Binding → Reading → (worker_id key_sha256 : Text) → Bool → Binding × Call
after_run b o worker_id key_sha256 true =
    let (c, inner) = start_current b worker_id key_sha256 in
    (c, rechecking o worker_id key_sha256 inner)
after_run b o worker_id key_sha256 false = fail b target_native_proof_uncertain

-- The second `current` has come to `r`.
unfoldable pub after_recheck : Binding → Reading → Result → Binding × Call
after_recheck b o (observation (some st)) =
    if st.identity == o.seen.identity && is_unchanged b o
    then (b, returned proof_done)
    else fail b target_native_observation_revoked
after_recheck b o r = fail b target_native_observation_revoked

-- The call goes on with an answer; an answer that it does not wait for leaves it.
module _ (origin : Text → Option Text) where
  unfoldable pub resume_inner : Binding → Call → Resumed → Binding × Call
  resume_inner b (reading_tabs r document_id url) (tabs answer) =
      if census origin answer r.snapshot.tab_id url
      then (b, reading_frame r document_id url)
      else (invalidate b, returned (observation none))
  resume_inner b (reading_frame r document_id url) (frame answer) =
      if frame_matches answer document_id url
      then finish_current b r
      else (invalidate b, returned (observation none))
  resume_inner b call answer = (b, call)

  unfoldable pub resume : Binding → Call → Resumed → Binding × Call
  resume b (selecting w k g e) (tabs answer) = after_list origin b w k g e answer
  resume b (observing_tabs o) (tabs answer) =
      if census origin answer o.current.tab_id o.url
      then (b, observing_frame o)
      else fail (invalidate b) target_census_changed
  resume b (observing_frame o) (frame answer) =
      if frame_matches answer o.document_id o.url
      then finish_observe b o
      else fail (invalidate b) target_census_changed
  resume b (proving o w k (returned r)) done = after_proof b o w k r
  resume b (proving o w k inner) answer =
      let (c, next) = resume_inner b inner answer in (c, proving o w k next)
  resume b (running o w k) (ran fulfilled) = after_run b o w k fulfilled
  resume b (rechecking o w k (returned r)) done = after_recheck b o r
  resume b (rechecking o w k inner) answer =
      let (c, next) = resume_inner b inner answer in (c, rechecking o w k next)
  resume b call answer = resume_inner b call answer
