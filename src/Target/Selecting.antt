-- ===== src/Target/Selecting.antt =====
-- `select` and `observe` of `browser-extension/src/target-binding.ts`, cut at each `await`.
-- `origin`
-- is as in `Target.Page`, `trim` is `String.prototype.trim`.
use bke_worker.Text.{text, text_eq, Text}
use bke_worker.Js.Value.{
  same_value, is_text_where, is_num, is_text, get, number_of, text_or_empty, Value,
}
use bke_worker.Protocol.Patterns.{is_worker_id}
use bke_worker.Target.Page.{
  is_chat_url, safe_tab, is_uuid, is_sha256, is_valid_chat_gpt_page_status, only_safe_tab,
}
use bke_worker.Prelude.{◌&&◌, not, ◌==◌, ◌+◌, Option, if◌then◌else◌, Bool, ℕ, none, some}
use bke_worker.Target.State.{
  Selected, Binding, Observing, Call, invalidate, same_owner, is_selected, is_unset_or, fail,
  target_owner_invalid, target_tabs_unavailable, target_selection_stale, target_not_unique,
  target_not_selected, target_owner_changed, target_sender_denied, target_document_changed,
  target_url_changed, target_observation_stale, tab_selected, observed, selecting, observing_tabs,
  returned,
}

unfoldable pub select : (Text → Text) → Binding → (worker_id key_sha256 : Text) → Binding × Call
select trim b worker_id key_sha256 =
    let c = invalidate b in
    if is_worker_id (trim worker_id) && text_eq (trim worker_id) worker_id && is_sha256 key_sha256
    then (c, selecting worker_id key_sha256 c.generation c.navigation_epoch)
    else fail c target_owner_invalid

-- A new selection of the tab.
unfoldable pub put_selected : Binding → (worker_id key_sha256 : Text) → Value → Binding
put_selected b worker_id key_sha256 tab = record b {
  selected = some (record {
    identity = b.made;
    worker_id = worker_id;
    key_sha256 = key_sha256;
    tab_id = number_of (get tab (text "id"));
    document_id = none;
    url = none;
  });
  made = b.made + 1;
}

-- The page's document and URL are kept with the selection, and its status. Two objects are made.
unfoldable pub put_observed : Binding → Observing → Binding
put_observed b o = record b {
  selected =
      some (record o.current {
        identity = b.made;
        document_id = some o.document_id;
        url = some o.url;
      });
  status = some (record { identity = b.made + 1; payload = o.payload });
  made = b.made + 2;
}

-- `select` after the tabs were listed.
module _ (origin : Text → Option Text) where
  unfoldable pub after_list :
      Binding → (worker_id key_sha256 : Text) (generation epoch : ℕ) → Option Value → Binding × Call
  after_list b worker_id key_sha256 generation epoch none = fail b target_tabs_unavailable
  after_list b worker_id key_sha256 generation epoch (some listed) =
      if not (b.generation == generation && b.navigation_epoch == epoch)
      then fail b target_selection_stale
      else elim (only_safe_tab origin listed) [
        | none ↦ fail b target_not_unique
        | some tab ↦ (put_selected b worker_id key_sha256 tab, returned tab_selected)
      ]

  unfoldable pub is_sender : (extension_id : Text) → Selected → (payload sender : Value) → Bool
  is_sender extension_id s payload sender =
      is_valid_chat_gpt_page_status origin payload
      && is_text (get sender (text "id")) extension_id
      && is_num (get sender (text "frameId")) 0
      && is_text (get sender (text "documentLifecycle")) (text "active")
      && is_text_where is_uuid (get sender (text "documentId"))
      && safe_tab origin (get sender (text "tab"))
      && is_num (get (get sender (text "tab")) (text "id")) s.tab_id
      && same_value (get sender (text "url")) (get payload (text "url"))
      && is_chat_url origin (get sender (text "url"))

  -- `observe` up to its first `await`.
  unfoldable pub observe :
      (extension_id : Text)
      → Binding
      → (payload sender : Value) → (worker_id key_sha256 : Text) → Binding × Call
  observe extension_id b payload sender worker_id key_sha256 = elim b.selected [
    | none ↦ fail b target_not_selected
    | some s ↦
        let document_id = text_or_empty (get sender (text "documentId")) in
        let url = text_or_empty (get sender (text "url")) in
        if not (same_owner s worker_id key_sha256)
        then fail (invalidate b) target_owner_changed
        else if not (is_sender extension_id s payload sender)
        then fail (invalidate b) target_sender_denied
        else if not (is_unset_or s.document_id document_id)
        then fail (invalidate b) target_document_changed
        else if not (is_unset_or s.url url)
        then fail (invalidate b) target_url_changed
        else (
          b,
          observing_tabs (record {
            current = s;
            started = b.generation;
            payload = payload;
            document_id = document_id;
            url = url;
          }),
        )
  ]

-- `observe` after both checks have passed.
unfoldable pub finish_observe : Binding → Observing → Binding × Call
finish_observe b o =
    if b.generation == o.started && is_selected b.selected o.current
    then (put_observed b o, returned observed)
    else fail b target_observation_stale
