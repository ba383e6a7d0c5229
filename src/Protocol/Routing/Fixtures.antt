-- ===== src/Protocol/Routing/Fixtures.antt =====
-- An event that edits a marker into a pull request's body, and the wake that it is routed to.
use bke_worker.Protocol.Wake.{Wake}
use bke_worker.Js.Value.{
  elements, is_object, text_or_none, text_or_empty, is_text, get, nil, cons, arr, end, num, field,
  str, obj, Value,
}
use bke_worker.Text.{has_text, text_eq, starts_with, includes, text, Text}
use bke_worker.Protocol.Routing.{
  routed, integer_or, is_self_push, reason_for, route_open, route_labels, route_github_pull_request,
}
use bke_worker.Protocol.Patterns.{
  is_valid_delivery_id, is_control_repository, is_worker_id, is_sha, in_range, control_repository,
}
use bke_worker.Protocol.Routing.Reasons.{cross_pr_recovery}
use bke_worker.Js.Integer.{pos}
use bke_worker.Protocol.Routing.Edits.{
  has_continuation, is_new, marker_head, recovery_marker, edit_reason,
}
use bke_worker.Protocol.Routing.Labels.{worker_id_from_label, read_worker_labels}
use bke_worker.Text.Decimal.{decimal}
use bke_worker.Prelude.{◌+◌, if◌then◌else◌, map, ◌≡◌, refl}

abbrev pub worker : Text
worker = text "android-worker-a"

abbrev pub head : Text
head = text "0123456789abcdef0123456789abcdef01234567"

abbrev pub delivery : Value
delivery = str (text "72d3162e")

-- Lower case for the units of ASCII.
abbrev pub lower_ascii : Text → Text
lower_ascii = map (λ c. if in_range b'A' b'Z' c then c + 32 else c)

abbrev pub one_field : Text → Value → Value
one_field key v = obj (field key v end)

abbrev pub pull_request : Value
pull_request = obj (
    field (text "number") (num (pos 7)) (
      field (text "labels")
        (arr (cons (one_field (text "name") (str (text "BKE-worker:android-worker-a"))) nil))
        (field (text "state") (str (text "open")) (
          field (text "head") (one_field (text "sha") (str head))
            (field (text "body") (str (recovery_marker worker 7 head)) end)))))

abbrev pub payload : Value
payload = obj (
    field (text "action") (str (text "edited")) (
      field (text "number") (num (pos 7)) (
        field (text "repository") (one_field (text "full_name") (str control_repository)) (
          field (text "changes")
            (one_field (text "body") (one_field (text "from") (str (text "old"))))
            (field (text "pull_request") pull_request end)))))

abbrev pub wake : Wake
wake = record {
  worker_id = worker;
  repo = control_repository;
  pr_number = 7;
  expected_head_sha = head;
  reason = cross_pr_recovery;
  delivery_id = text "72d3162e";
}

pub payload_routed : route_github_pull_request lower_ascii payload delivery ≡ routed worker wake
unfolding route_github_pull_request route_labels route_open reason_for edit_reason is_self_push
    read_worker_labels worker_id_from_label recovery_marker marker_head includes starts_with is_new
    get text text_eq is_text text_or_empty text_or_none has_text is_object is_sha is_worker_id
    is_control_repository is_valid_delivery_id integer_or decimal has_continuation elements
payload_routed = refl
