-- ===== src/Retirement/Membership/Tests.antt =====
-- The theorem about a sample at an object with two sockets, of which one has registered.
use bke_worker.Prelude.{every, ◌↔◌, Option, List, ◌≡◌, refl, true, false, none, some, [], ◌∷◌}
use bke_worker.Retirement.Tests.{target}
use bke_worker.Retirement.Membership.{
  is_identifier, is_registered_attachment, has_session, is_attachment, count_matches, sampled,
  read_sample, read_relay_socket_membership_witness, Sample,
}
use bke_worker.Retirement.Witness.{
  is_recent, is_connection, is_in_context, observe, read_queued, read_active,
  read_relay_retirement_witness, Stored, Observed,
}
use bke_worker.Js.Value.{
  elements, text_or_empty, number_of, is_positive_safe, is_positive_integer, is_text_where,
  is_undefined, same_value, get_field, get, null, bool, end, field, undefined, obj, str, Value,
}
use bke_worker.Text.{has_text, text_eq, text}
use bke_worker.Retirement.Membership.Sampled.{membership_iff, IsSampled}
use bke_worker.Retirement.Fence.{validate_retirement_target}
use bke_worker.Js.Keys.{exact}
use bke_worker.Protocol.Patterns.{
  is_run, is_sha, is_control_repository, is_worker_id, is_valid_worker_id,
}
use bke_worker.Session.Fixtures.{worker}

abbrev connected : Stored
connected = record {
  worker_id = str worker;
  active_wake = undefined;
  queued_wake = undefined;
  active_connection_id = str (text "c-1");
  recent_deliveries = undefined;
  fence = undefined;
  epoch = undefined;
}

abbrev attachment : Value → Value → Value → Value
attachment connection registered session = obj (
    field (text "workerId") (str worker) (
      field (text "connectionId") connection
        (field (text "registered") registered (field (text "sessionId") session end))))

abbrev two_sockets : List (Option Value)
two_sockets =
    some (attachment (str (text "c-1")) (bool true) (str (text "tab")))
    ∷ some (attachment (str (text "c-2")) (bool false) null)
    ∷ []

abbrev sample : Sample
sample = record {
  stored_before = str (text "c-1");
  sockets = some two_sockets;
  stored_after = str (text "c-1");
}

abbrev observed : Observed
observed = record {
  active = none;
  queued = none;
  active_connection_id_present = true;
  recent_delivery_count = 0;
}

reported :
    read_relay_socket_membership_witness true (some connected) target (some sample)
    ≡ sampled observed true 2
unfolding read_relay_socket_membership_witness read_sample count_matches is_attachment has_session
    is_registered_attachment is_identifier read_relay_retirement_witness read_active read_queued
    observe is_in_context is_connection is_recent validate_retirement_target exact get get_field
    same_value is_undefined is_text_where is_positive_integer is_positive_safe number_of
    text_or_empty elements text text_eq has_text every is_valid_worker_id is_worker_id
    is_control_repository is_sha is_run
reported = refl

membership_iff_example :
    (read_relay_socket_membership_witness true (some connected) target (some sample)
      ≡ sampled observed true 2)
    ↔ IsSampled (some connected) target sample observed true 2
membership_iff_example = membership_iff (some connected) target sample observed true 2
