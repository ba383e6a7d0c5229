-- ===== src/Attempt/Platform.antt =====
-- What both gates take from the platform, and the tests that they write on times and URLs:
-- `browser-extension/src/bootstrap-fence.ts` and `browser-extension/src/fresh-attempt-gate.ts`.
use bke_worker.Prelude.{
  ◌==◌, ◌+◌, ltb, [], leb, drop, ◌||◌, ◌∷◌, ◌&&◌, true, not, some, false, Bool, none, if◌then◌else◌,
  ℕ, Option,
}
use bke_worker.Js.Value.{is_array, get, same_value, is_object, fraction, str, num, Value}
use bke_worker.Js.Integer.{negsuc, pos, ℤ}
use bke_worker.Protocol.Patterns.{is_worker_unit, is_lower_or_digit, is_run, in_range}
use bke_worker.Text.{text_eq, starts_with, text, Text}

-- What the gates use of a `URL`.
pub record Url : Type 0 where
  pub protocol : Text
  pub origin : Text
  pub username : Text
  pub password : Text
  pub search : Text
  pub hash : Text
  pub pathname : Text

-- `Date.parse`, `none` where that is no finite number, `new Date(ms).toISOString()`, and
-- `new URL(raw)`, `none` where that throws. A time is a whole number of milliseconds.
pub record Platform : Type 0 where
  pub parse_date : Text → Option ℤ
  pub to_iso_string : ℤ → Text
  pub parse_url : Text → Option Url

-- `a <= b + k`
unfoldable pub at_most_after : ℕ → ℤ → ℤ → Bool
at_most_after k (pos a) (pos b) = leb a (b + k)
at_most_after k (negsuc a) (pos b) = true
at_most_after k (pos a) (negsuc b) = leb (a + b + 1) k
at_most_after k (negsuc a) (negsuc b) = leb b (a + k)

abbrev pub observation_max_age_ms : ℕ
observation_max_age_ms = 10_000

abbrev pub clock_skew_ms : ℕ
clock_skew_ms = 2_000

-- `a !== null && b !== null && a <= b + k`
unfoldable pub is_ordered : ℕ → (a b : Option ℤ) → Bool
is_ordered k none b = false
is_ordered k (some a) none = false
is_ordered k (some a) (some b) = at_most_after k a b

-- Not later than the skew allows, and not older than an observation may be.
unfoldable pub is_recent : (now observed : Option ℤ) → Bool
is_recent none observed = false
is_recent (some now) none = false
is_recent (some now) (some observed) =
    at_most_after clock_skew_ms observed now && at_most_after observation_max_age_ms now observed

-- `a.key === b.other`
unfoldable pub same_field : (a : Value) (key : Text) (b : Value) (other : Text) → Bool
same_field a key b other = same_value (get a key) (get b other)

-- `v !== undefined && v !== null && typeof v === "object"`
unfoldable pub has_properties : Value → Bool
has_properties v = is_object v || is_array v

abbrev pub landing_url : Text
landing_url = text "https://chatgpt.com/"

-- The text fits the mask, in which `d` stands for a digit and any other unit for itself.
unfoldable pub fits_mask : (mask : Text) → Text → Bool
fits_mask [] [] = true
fits_mask [] (c ∷ t) = false
fits_mask (m ∷ ms) [] = false
fits_mask (m ∷ ms) (c ∷ t) = (if m == b'd' then in_range b'0' b'9' c else m == c) && fits_mask ms t

-- ISO_UTC_MILLIS = /^[0-9]{4}-[0-9]{2}-[0-9]{2}T[0-9]{2}:[0-9]{2}:[0-9]{2}\.[0-9]{3}Z$/
unfoldable pub is_iso_utc_millis : Text → Bool
is_iso_utc_millis t = fits_mask (text "dddd-dd-ddTdd:dd:dd.dddZ") t

-- [A-Za-z0-9_-]
unfoldable pub is_identifier_unit : ℕ → Bool
is_identifier_unit c = in_range b'A' b'Z' c || is_worker_unit c || c == b'_'

-- IDENTIFIER = /^[A-Za-z0-9_-]{8,128}$/
unfoldable pub is_identifier : Text → Bool
is_identifier t = is_run is_identifier_unit 8 128 t

-- ATTEMPT_ID = /^[a-z0-9][a-z0-9-]{0,95}$/
unfoldable pub is_attempt_id : Text → Bool
is_attempt_id [] = false
is_attempt_id (c ∷ t) = is_lower_or_digit c && is_run is_worker_unit 0 95 t

-- `typeof v === "number"`
unfoldable pub is_number : Value → Bool
is_number (num z) = true
is_number (fraction n) = true
is_number v = false

-- `Number.isSafeInteger(v)`
unfoldable pub is_safe_integer : Value → Bool
is_safe_integer (num (pos n)) = ltb n 9007199254740992
is_safe_integer (num (negsuc n)) = ltb n 9007199254740991
is_safe_integer v = false

-- The match of /^\/c\/([A-Za-z0-9_-]{8,128})$/, if there is one.
unfoldable pub conversation_path : Text → Option Text
conversation_path path =
    if starts_with path (text "/c/") && is_identifier (drop 3 path)
    then some (drop 3 path)
    else none

-- The constant `CHATGPT_ORIGIN` of this model: both files write the literal.
abbrev pub chat_origin : Text
chat_origin = text "https://chatgpt.com"

unfoldable pub conversation_id_of : Url → Option Text
conversation_id_of url =
    if not (text_eq url.origin chat_origin)
      || not (text_eq url.username [])
      || not (text_eq url.password [])
      || not (text_eq url.search [])
      || not (text_eq url.hash [])
    then none
    else conversation_path url.pathname

module _ (js : Platform) where
  -- `Number.isFinite(parsed) && new Date(parsed).toISOString() === t ? parsed : null`
  unfoldable pub parsed_iso : Text → Option ℤ
  parsed_iso t = elim (js.parse_date t) [
    | none ↦ none
    | some ms ↦ if text_eq (js.to_iso_string ms) t then some ms else none
  ]

  unfoldable pub valid_iso_utc : Value → Option ℤ
  valid_iso_utc (str t) = if is_iso_utc_millis t then parsed_iso t else none
  valid_iso_utc v = none

  unfoldable pub conversation_id_from_url : Text → Option Text
  conversation_id_from_url raw = elim (js.parse_url raw) [
    | none ↦ none
    | some url ↦ conversation_id_of url
  ]
