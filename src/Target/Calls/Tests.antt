-- ===== src/Target/Calls/Tests.antt =====
-- A selection, an observation and a local proof over it, and the theorem at that run.
use bke_worker.Js.Value.{number_of, text_or_empty, same_value, is_text_where, is_num, is_text}
use bke_worker.Target.State.{
  proof_done, returned, idle, is_unset_or, is_status, is_selected, tab_changed, invalidate, ran,
  frame, tabs, Resumed, Selected, Status, same_owner, done,
}
use bke_worker.Target.Proving.{
  resume, resume_inner, after_recheck, after_run, after_proof, start_proof, finish_current,
  start_current, is_unchanged,
}
use bke_worker.Target.Selecting.{
  finish_observe, observe, is_sender, after_list, put_observed, put_selected, select,
}
use bke_worker.Prelude.{◌++◌, every, Option, some, true, false, ◌≡◌, ◌≢◌, refl, List, [], ◌∷◌}
use bke_worker.Js.Value.{get_field, get, end, nil, bool, num, cons, str, arr, field, obj, Value}
use bke_worker.Target.Calls.{
  observes, navigated, begin, new_world, selects, goes_on, step, run, Event, TargetWorld,
}
use bke_worker.Text.{split_at, text_eq, text, Text}
use bke_worker.Target.Calls.Standing.{proof-unchanged, begun, then_run}
use bke_worker.Target.Page.{
  is_bool, is_string, is_safe_index, is_integer, is_sha256, is_any_hex_unit, is_grouped, is_uuid,
  is_valid_chat_gpt_page_status, is_chat_text, is_chat_url, safe_tab, only_safe_tab, frame_matches,
  census,
}
use bke_worker.Protocol.Patterns.{
  is_hex_unit, is_lower_or_digit, is_worker_unit, is_run, is_worker_id,
}
use bke_worker.Target.Calls.Shown.{run-IsBound, IsBound}
use bke_worker.Js.Integer.{negsuc, pos}

abbrev worker : Text
worker = text "w"

abbrev key : Text
key = text "0123456789abcdef0123456789abcdef0123456789abcdef0123456789abcdef"

abbrev chat : Text
chat = text "https://chatgpt.com/c"

abbrev document : Text
document = text "01234567-89ab-cdef-0123-456789abcdef"

-- Every URL of the test is of the one origin.
abbrev origin_of : Text → Option Text
origin_of t = some (text "https://chatgpt.com")

abbrev same : Text → Text
same t = t

abbrev extension : Text
extension = text "x"

abbrev tab : Value
tab = obj (
    field (text "id") (num (pos 4))
      (field (text "url") (str chat) (field (text "incognito") (bool false) end)))

abbrev listed : Resumed
listed = tabs (some (arr (cons tab nil)))

abbrev framed : Resumed
framed = frame (
    some (
      obj (
        field (text "url") (str chat) (
          field (text "documentId") (str document) (
            field (text "documentLifecycle") (str (text "active")) (
              field (text "frameType") (str (text "outermost_frame"))
                (field (text "parentFrameId") (num (negsuc 0)) end)))))))

abbrev page : Value
page = obj (
    field (text "protocolVersion") (num (pos 1)) (
      field (text "observedAt") (str (text "now")) (
        field (text "url") (str chat) (
          field (text "visible") (bool true) (
            field (text "composerAvailable") (bool true)
              (field (text "turnBusy") (bool false) end))))))

abbrev sent : Value
sent = obj (
    field (text "id") (str extension) (
      field (text "frameId") (num (pos 0)) (
        field (text "documentLifecycle") (str (text "active")) (
          field (text "documentId") (str document)
            (field (text "tab") tab (field (text "url") (str chat) end))))))

abbrev beginning : List Event
beginning =
    selects 0 worker key
    ∷ goes_on 0 listed
    ∷ observes 1 page sent worker key
    ∷ goes_on 1 listed
    ∷ goes_on 1 framed
    ∷ []

abbrev shown : Selected
shown = record {
  identity = 1;
  worker_id = worker;
  key_sha256 = key;
  tab_id = 4;
  document_id = some document;
  url = some chat;
}

abbrev status : Status
status = record { identity = 2; payload = page }

abbrev first_half : List Event
first_half = goes_on 2 listed ∷ goes_on 2 framed ∷ goes_on 2 done ∷ navigated 9 ∷ []

abbrev second_half : List Event
second_half = goes_on 2 (ran true) ∷ goes_on 2 listed ∷ goes_on 2 framed ∷ []

abbrev world : TargetWorld
world = run origin_of same extension new_world beginning

abbrev proof_world : List Event → TargetWorld
proof_world = then_run origin_of same extension beginning 2 worker key

-- The observation stands before the proof, and the proof is done at the last event.
proof_runs :
    (world.binding.selected ≡ some shown)
    × (world.binding.status ≡ some status)
    × (world.calls 2 ≡ idle)
    × ((proof_world (first_half ++ second_half)).calls 2 ≢ returned proof_done)
    × ((step origin_of same extension
            (proof_world (first_half ++ second_half))
            (goes_on 2 done)).calls
          2
        ≡ returned proof_done)
unfolding run step begin select invalidate tab_changed put_selected put_observed after_list
    is_sender observe finish_observe start_current finish_current is_unchanged start_proof
    after_proof after_run after_recheck resume_inner resume is_selected is_status is_unset_or census
    frame_matches only_safe_tab safe_tab is_chat_url is_chat_text is_valid_chat_gpt_page_status
    is_uuid is_grouped is_any_hex_unit is_sha256 is_integer is_safe_index is_string is_bool get
    get_field is_text is_num is_text_where same_value text text_eq text_or_empty number_of
    is_worker_id is_run is_worker_unit is_lower_or_digit is_hex_unit every split_at
proof_runs = (refl, refl, refl, λ e. cc, refl)

proof-unchanged_example :
    (same_owner shown worker key ≡ true)
    × (is_unchanged (proof_world first_half).binding (begun world.binding shown status) ≡ true)
proof-unchanged_example =
    let (set, seen, free, open_yet, ends) = proof_runs in
    proof-unchanged origin_of same extension beginning 2 worker key shown status first_half
      second_half (goes_on 2 done) free set seen open_yet ends

run-IsBound_example : IsBound (run origin_of same extension new_world beginning)
run-IsBound_example = run-IsBound origin_of same extension beginning
