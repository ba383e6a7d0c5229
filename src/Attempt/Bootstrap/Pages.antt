-- ===== src/Attempt/Bootstrap/Pages.antt =====
-- The tests on the browser's target and its page, of `browser-extension/src/bootstrap-fence.ts`.
use bke_worker.Js.Value.{is_num, is_text, bool, get, text_or_empty, same_value, Value}
use bke_worker.Attempt.Bootstrap.{
  is_ui_state, busy, chatgpt_ui_unavailable, observation_stale, chatgpt_busy, chatgpt_auth_required,
  thread, auth_required, new_chat_landing, BootstrapCode, BootstrapFenceInput,
}
use bke_worker.Prelude.{
  ◌||◌, none, if◌then◌else◌, is_none, not, false, true, some, ◌&&◌, Bool, Option,
}
use bke_worker.Attempt.Platform.{
  same_field, is_recent, landing_url, valid_iso_utc, conversation_id_from_url, Platform,
}
use bke_worker.Protocol.Assignments.{is_truthy}
use bke_worker.Text.{text, Text}

unfoldable pub target_matches_request : BootstrapFenceInput → Bool
target_matches_request i =
    same_value (get i.browser (text "profileIsolated")) (bool true)
    && same_value (get i.browser (text "sharedWritableProfile")) (bool false)
    && is_num (get i.browser (text "matchingWritableTargetCount")) 1
    && same_field i.browser (text "ownedTargetId") i.request (text "targetId")
    && same_field i.browser (text "ownedProfileId") i.request (text "profileId")
    && same_field i.browser (text "ownedTargetTabId") i.request (text "targetTabId")
    && same_field i.page (text "targetId") i.request (text "targetId")
    && same_field i.page (text "profileId") i.request (text "profileId")
    && same_field i.page (text "tabId") i.request (text "targetTabId")

-- `page.visible && page.composerAvailable`
unfoldable pub is_usable : Value → Bool
is_usable page =
    is_truthy (get page (text "visible")) && is_truthy (get page (text "composerAvailable"))

module _ (js : Platform) where
  unfoldable pub current_page_is_fresh : BootstrapFenceInput → Bool
  current_page_is_fresh i =
      is_recent (valid_iso_utc js i.now_iso) (valid_iso_utc js (get i.page (text "observedAt")))

  -- The first three tests of `landingPageReady` and of `threadPageReady`.
  unfoldable pub page_error : BootstrapFenceInput → Option BootstrapCode
  page_error i =
      if is_ui_state i.ui_state auth_required
      then some chatgpt_auth_required
      else if is_ui_state i.ui_state busy || is_truthy (get i.page (text "turnBusy"))
      then some chatgpt_busy
      else if not (current_page_is_fresh i)
      then some observation_stale
      else none

  unfoldable pub landing_page_ready : BootstrapFenceInput → Option BootstrapCode
  landing_page_ready i = elim (page_error i) [
    | some code ↦ some code
    | none ↦
        if not (is_ui_state i.ui_state new_chat_landing)
          || not (is_text (get i.page (text "url")) landing_url)
          || not (is_usable i.page)
        then some chatgpt_ui_unavailable
        else none
  ]

  -- The conversation of the page's URL, which is a string by the tests of the shape.
  unfoldable pub page_conversation : BootstrapFenceInput → Option Text
  page_conversation i = conversation_id_from_url js (text_or_empty (get i.page (text "url")))

  unfoldable pub thread_page_ready : BootstrapFenceInput → Option BootstrapCode
  thread_page_ready i = elim (page_error i) [
    | some code ↦ some code
    | none ↦
        if not (is_usable i.page)
          || not (is_ui_state i.ui_state thread)
          || is_none (page_conversation i)
        then some chatgpt_ui_unavailable
        else none
  ]
