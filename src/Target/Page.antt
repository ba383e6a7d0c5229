-- ===== src/Target/Page.antt =====
-- What the page of a ChatGPT tab may say, and the tests on tabs and frames:
-- `browser-extension/src/protocol.ts` and `browser-extension/src/target-binding.ts`. `origin` is
-- `new URL(url).origin`, `none` where that throws.
use bke_worker.Text.{text, text_eq, split_at, Text}
use bke_worker.Js.Value.{
  same_value, nil, is_text, is_text_where, str, cons, is_num, num, get, bool, arr, Value,
}
use bke_worker.Js.Integer.{negsuc, pos, same_integer, ℤ}
use bke_worker.Protocol.Patterns.{in_range, protocol_version, is_hex_unit, is_run}
use bke_worker.Prelude.{
  not, ◌&&◌, ltb, [], true, ◌||◌, if◌then◌else◌, ◌∷◌, false, List, Bool, Option, ℕ, none, some,
}

-- `typeof v === "boolean"`
unfoldable pub is_bool : Value → Bool
is_bool (bool b) = true
is_bool v = false

-- `typeof v === "string"`
unfoldable pub is_string : Value → Bool
is_string (str s) = true
is_string v = false

-- `Number.isSafeInteger(v) && v >= 0`
unfoldable pub is_safe_index : Value → Bool
is_safe_index (num (pos n)) = ltb n 9007199254740992
is_safe_index v = false

-- `v === z`
unfoldable pub is_integer : Value → ℤ → Bool
is_integer (num y) z = same_integer y z
is_integer v z = false

-- /^[a-f0-9]{64}$/
unfoldable pub is_sha256 : Text → Bool
is_sha256 t = is_run is_hex_unit 64 64 t

-- [a-f0-9], letters in either case
unfoldable pub is_any_hex_unit : ℕ → Bool
is_any_hex_unit c = is_hex_unit c || in_range b'A' b'F' c

-- Groups of these lengths, with a dash between two.
unfoldable pub is_grouped : (ℕ → Bool) → List ℕ → Text → Bool
is_grouped class [] t = false
is_grouped class (n ∷ []) t = is_run class n n t
is_grouped class (n ∷ m ∷ ns) t = elim (split_at b'-' t) [
  | none ↦ false
  | some (group, rest) ↦ is_run class n n group && is_grouped class (m ∷ ns) rest
]

-- UUID = /^[a-f0-9]{8}(?:-[a-f0-9]{4}){3}-[a-f0-9]{12}$/i
unfoldable pub is_uuid : Text → Bool
is_uuid t = is_grouped is_any_hex_unit (8 ∷ 4 ∷ 4 ∷ 4 ∷ 12 ∷ []) t

module _ (origin : Text → Option Text) where
  -- `new URL(url).origin === "https://chatgpt.com"`
  unfoldable pub is_chat_text : Text → Bool
  is_chat_text t = elim (origin t) [
    | none ↦ false
    | some o ↦ text_eq o (text "https://chatgpt.com")
  ]

  unfoldable pub is_chat_url : Value → Bool
  is_chat_url v = is_text_where is_chat_text v

  unfoldable pub is_valid_chat_gpt_page_status : Value → Bool
  is_valid_chat_gpt_page_status v =
      is_num (get v (text "protocolVersion")) protocol_version
      && is_string (get v (text "observedAt"))
      && is_string (get v (text "url"))
      && is_bool (get v (text "visible"))
      && is_bool (get v (text "composerAvailable"))
      && is_bool (get v (text "turnBusy"))
      && is_chat_url (get v (text "url"))

  unfoldable pub safe_tab : Value → Bool
  safe_tab tab =
      is_safe_index (get tab (text "id"))
      && same_value (get tab (text "incognito")) (bool false)
      && is_chat_url (get tab (text "url"))

  -- The one tab of a list, if it is safe.
  unfoldable pub only_safe_tab : Value → Option Value
  only_safe_tab (arr (cons tab nil)) = if safe_tab tab then some tab else none
  only_safe_tab v = none

  -- What `census` says of the answer of `listTabs`, `none` where that throws.
  unfoldable pub census : Option Value → (tab_id : ℕ) → (url : Text) → Bool
  census none tab_id url = false
  census (some tabs) tab_id url = elim (only_safe_tab tabs) [
    | none ↦ false
    | some tab ↦ is_num (get tab (text "id")) tab_id && is_text (get tab (text "url")) url
  ]

-- What `frameMatches` says of the answer of `getTopFrame`, `none` where that throws.
unfoldable pub frame_matches : Option Value → (document_id url : Text) → Bool
frame_matches none document_id url = false
frame_matches (some frame) document_id url =
    is_text (get frame (text "url")) url
    && is_text (get frame (text "documentId")) document_id
    && is_text (get frame (text "documentLifecycle")) (text "active")
    && is_text (get frame (text "frameType")) (text "outermost_frame")
    && is_integer (get frame (text "parentFrameId")) (negsuc 0)
    && not (same_value (get frame (text "errorOccurred")) (bool true))
