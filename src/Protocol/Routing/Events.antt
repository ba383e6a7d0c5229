-- ===== src/Protocol/Routing/Events.antt =====
-- Inversion of `routeGitHubPullRequest` of `cloudflare-relay/src/protocol.js`: the tests that a
-- routed event has passed.
use bke_worker.Prelude.{
  ⊎-cases, ◌≢◌, arith, ◌∷◌, List, true, ◌≡◌, ℕ, [], some, refl, Option-cases, inl, inr,
}
use bke_worker.Js.Integer.{to_ℕ, is_positive, ℤ, negsuc}
use bke_worker.Protocol.Routing.{
  Route, routing_actions, integer_or, route_labels, route_open, reason_for,
  route_github_pull_request, routed,
}
use bke_worker.Protocol.Routing.Labels.{read_worker_labels, worker_id_from_label}
use bke_worker.Js.Value.{is_text, get, text_or_empty, Value}
use bke_worker.Protocol.Wake.{Wake}
use bke_worker.Protocol.Patterns.{is_sha, is_control_repository, is_valid_delivery_id, is_worker_id}
use bke_worker.Text.{text, Text, has_text}

pub worker_id_from_label-valid :
    (lower : Text → Text) (label worker_id : Text)
    → worker_id_from_label lower label ≡ some worker_id
    → is_worker_id worker_id ≡ true
unfolding worker_id_from_label
worker_id_from_label-valid lower label worker_id h = ground arith

-- The wake that `routeGitHubPullRequest` builds.
abbrev pub wake_of : (delivery_id repository worker_id : Text) → ℕ → (head_sha reason : Text) → Wake
wake_of delivery_id repository worker_id n head_sha reason = record {
  worker_id = worker_id;
  repo = repository;
  pr_number = n;
  expected_head_sha = head_sha;
  reason = reason;
  delivery_id = delivery_id;
}

module _ (lower : Text → Text) (delivery_id repository label worker_id : Text) (n : ℕ)
    (payload pull_request : Value) (id : Text) (w : Wake) where
  reason_for-stops :
      (action head_sha : Text) (r : Route)
      → reason_for lower repository label worker_id n action head_sha payload pull_request ≡ inl r
      → r ≢ routed id w
  unfolding reason_for
  reason_for-stops action head_sha r h e = ground arith

  abbrev action : Text
  action = text_or_empty (get payload (text "action"))

  abbrev head_sha : Text
  head_sha = text_or_empty (get (get pull_request (text "head")) (text "sha"))

  pub route_open-routed :
      route_open lower delivery_id repository label worker_id n payload pull_request ≡ routed id w
      → (has_text routing_actions action ≡ true)
        × (is_sha head_sha ≡ true)
        × (reason : Text) × (reason_for lower repository label worker_id n action head_sha payload
              pull_request
            ≡ inr reason)
        × (id ≡ worker_id)
        × (w ≡ wake_of delivery_id repository worker_id n head_sha reason)
  unfolding route_open
  route_open-routed h =
      elim (⊎-cases
        (reason_for lower repository label worker_id n action head_sha payload pull_request)) [
          | inl (r, stops) ↦ absurd (ground (arith, reason_for-stops action head_sha r stops))
          | inr (reason, goes) ↦
              (ground arith, ground arith, reason, goes, ground arith, ground arith)
        ]

module _ (lower : Text → Text) (delivery_id repository : Text) (n : ℕ)
    (payload pull_request : Value) (id : Text) (w : Wake) where
  -- Only a list of one label routes, and only one that names a worker.
  pub route_labels-routed :
      (labels : List Text)
      → route_labels lower delivery_id repository n payload pull_request labels ≡ routed id w
      → (label : Text) × (worker_id : Text) × (labels ≡ label ∷ [])
        × (worker_id_from_label lower label ≡ some worker_id)
        × (is_text (get pull_request (text "state")) (text "open") ≡ true)
        × (route_open lower delivery_id repository label worker_id n payload pull_request
            ≡ routed id w)
  unfolding route_labels
  route_labels-routed [] h = cc
  route_labels-routed (label ∷ other ∷ rest) h = cc
  route_labels-routed (label ∷ []) h = elim (Option-cases (worker_id_from_label lower label)) [
    | inl nobody ↦ absurd (ground (arith, nobody))
    | inr (worker_id, named) ↦ (label, worker_id, refl, named, ground arith, ground arith)
  ]

abbrev pub repository_of : Value → Text
repository_of payload = text_or_empty (get (get payload (text "repository")) (text "full_name"))

abbrev pub number_in : Value → ℤ
number_in payload =
    integer_or (get payload (text "number"))
      (integer_or (get (get payload (text "pull_request")) (text "number")) (negsuc 0))

pub route-routed :
    (lower : Text → Text) (payload delivery_id : Value) (id : Text) (w : Wake)
    → route_github_pull_request lower payload delivery_id ≡ routed id w
    → (is_valid_delivery_id delivery_id ≡ true)
      × (is_control_repository (repository_of payload) ≡ true)
      × (is_positive (number_in payload) ≡ true)
      × (route_labels lower
            (text_or_empty delivery_id)
            (repository_of payload)
            (to_ℕ (number_in payload))
            payload
            (get payload (text "pull_request"))
            (read_worker_labels lower (get payload (text "pull_request")))
          ≡ routed id w)
unfolding route_github_pull_request
route-routed lower payload delivery_id id w h = ground arith
