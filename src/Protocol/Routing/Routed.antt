-- ===== src/Protocol/Routing/Routed.antt =====
-- What a routed event says: `routeGitHubPullRequest` of `cloudflare-relay/src/protocol.js` fails
-- closed on labels, and the wake that it writes passes `validateWake`.
use bke_worker.Prelude.{◌∙◌, sym, subst, ap, ◌∷◌, ltb, true, ◌≡◌, [], some, inr}
use bke_worker.Js.Integer.{to_ℕ, is_positive, ℤ, pos, negsuc}
use bke_worker.Protocol.Routing.{reason_for, routing_actions, route_github_pull_request, routed}
use bke_worker.Text.{includes, text, Text, has_text, text_eq}
use bke_worker.Js.Value.{text_or_empty, is_text, get, Value}
use bke_worker.Protocol.Wake.{IsWake, wake_value, validate_wake, Wake}
use bke_worker.Protocol.Routing.Labels.{worker_id_from_label, read_worker_labels}
use bke_worker.Protocol.Patterns.{is_delivery_id, control_repository, is_valid_delivery_id}
use bke_worker.Protocol.Routing.Reasons.{
  reason_for-recovery, reason_for-IsReason, prior_body_of, body_of, cross_pr_recovery,
}
use bke_worker.Protocol.Routing.Events.{
  wake_of, number_in, worker_id_from_label-valid, route_open-routed, route_labels-routed,
  route-routed, repository_of,
}
use bke_worker.Protocol.Wake.Reading.{validate_wake-wake_value}
use bke_worker.Js.Reads.{is_text_where→holds}
use bke_worker.Protocol.Routing.Edits.{cross_pr_recovery_marker, is_new, recovery_marker}

positive-ltb : (z : ℤ) → is_positive z ≡ true → ltb 0 (to_ℕ z) ≡ true
positive-ltb (pos n) h = h
positive-ltb (negsuc n) h = cc

-- What a wake owes to the event it comes from.
pub record IsRouted (lower : Text → Text) (payload delivery_id : Value) (worker_id : Text)
    (w : Wake) : Type 0 where
  pub label : Text
  pub one_label : read_worker_labels lower (get payload (text "pull_request")) ≡ label ∷ []
  pub label_worker : worker_id_from_label lower label ≡ some worker_id
  pub pull_request_open :
      is_text (get (get payload (text "pull_request")) (text "state")) (text "open") ≡ true
  pub reason : Text
  pub listed : has_text routing_actions (text_or_empty (get payload (text "action"))) ≡ true
  pub reason_given :
      reason_for lower
        (repository_of payload)
        label
        worker_id
        (to_ℕ (number_in payload))
        (text_or_empty (get payload (text "action")))
        (text_or_empty (get (get (get payload (text "pull_request")) (text "head")) (text "sha")))
        payload
        (get payload (text "pull_request"))
      ≡ inr reason
  pub is_wake_of :
      w
      ≡ wake_of
          (text_or_empty delivery_id)
          (repository_of payload)
          worker_id
          (to_ℕ (number_in payload))
          (text_or_empty (get (get (get payload (text "pull_request")) (text "head")) (text "sha")))
          reason
  pub wake_ok : IsWake w

module _ (lower : Text → Text) (payload delivery_id : Value) (worker_id : Text) (w : Wake)
    (h : route_github_pull_request lower payload delivery_id ≡ routed worker_id w) where
  pub route-IsRouted : IsRouted lower payload delivery_id worker_id w
  unfolding is_valid_delivery_id
  route-IsRouted =
      let (delivery, control, positive, by_labels) =
        route-routed lower payload delivery_id worker_id w h in
      let (label, named, one, worker, opened, by_action) =
        route_labels-routed lower _ _ _ _ _ worker_id w _ by_labels in
      let (listed, head, reason, given, same_worker, built) =
        route_open-routed lower _ _ _ _ _ _ _ worker_id w by_action in
      subst (λ id. IsRouted lower payload delivery_id id w) (sym same_worker)
        (record {
          label = label;
          one_label = one;
          label_worker = worker;
          pull_request_open = opened;
          reason = reason;
          listed = listed;
          reason_given = given;
          is_wake_of = built;
          wake_ok = subst IsWake (sym built) (record {
            worker_ok = worker_id_from_label-valid lower label named worker;
            repo_ok = control;
            number_ok = positive-ltb (number_in payload) positive;
            head_ok = head;
            reason_ok = reason_for-IsReason lower _ _ _ _ _ _ _ _ reason listed given;
            delivery_ok = is_text_where→holds is_delivery_id delivery_id delivery;
          });
        })

  -- A routed event gives a wake that the worker's session accepts as its own.
  pub route_validates : validate_wake (wake_value w) (some worker_id) ≡ true
  route_validates =
      let r = route-IsRouted in
      (validate_wake-wake_value w worker_id).1 (r.wake_ok, ap (λ u. u.worker_id) r.is_wake_of)

  -- A routed event with the reason for recovery across pull requests comes of an edit in the
  -- control repository whose new body carries the marker of this worker, pull request and head,
  -- where the old body, known from the event, had no marker of the kind.
  pub route_recovery_marked :
      w.reason ≡ cross_pr_recovery
      → (text_eq (repository_of payload) control_repository ≡ true)
        × (includes (body_of payload) (recovery_marker worker_id w.pr_number w.expected_head_sha)
            ≡ true)
        × (is_new (prior_body_of payload) cross_pr_recovery_marker ≡ true)
  route_recovery_marked because =
      let r = route-IsRouted in
      let same_reason = sym (ap (λ u. u.reason) r.is_wake_of) ∙ because in
      let (control, found, fresh) =
        reason_for-recovery lower _ r.label _ _ _ _ payload _ r.listed
          (r.reason_given ∙ ap inr same_reason) in
      (control, rw r.is_wake_of found, fresh)
