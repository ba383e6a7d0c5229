-- ===== src/Protocol/Patterns.antt =====
-- The regular expressions and constants of `cloudflare-relay/src/protocol.js`. Each expression is
-- anchored at both ends, so it is a class of code units with a range of lengths.
use bke_worker.Prelude.{
  some, none, ℕ, Bool, false, ◌&&◌, ◌||◌, List, [], ◌∷◌, length, every, leb, ◌==◌,
}
use bke_worker.Text.{split_at, Text, text, has_text}
use bke_worker.Js.Value.{Value, is_text_where}

abbrev pub protocol_version : ℕ
protocol_version = 1

abbrev pub control_repository : Text
control_repository = text "jan2xo/bke-worker"

abbrev pub control_repositories : List Text
control_repositories = control_repository ∷ text "jan2xo/bke-demo-app" ∷ []

abbrev pub in_range : ℕ → ℕ → ℕ → Bool
in_range low high c = leb low c && leb c high

-- [a-z0-9]
unfoldable pub is_lower_or_digit : ℕ → Bool
is_lower_or_digit c = in_range b'a' b'z' c || in_range b'0' b'9' c

-- [a-z0-9-]
unfoldable pub is_worker_unit : ℕ → Bool
unfolding is_lower_or_digit
is_worker_unit c = is_lower_or_digit c || c == b'-'

-- [0-9a-f]
unfoldable pub is_hex_unit : ℕ → Bool
is_hex_unit c = in_range b'0' b'9' c || in_range b'a' b'f' c

-- [A-Za-z0-9._:-]
unfoldable pub is_delivery_unit : ℕ → Bool
unfolding is_worker_unit
is_delivery_unit c = in_range b'A' b'Z' c || is_worker_unit c || c == b'.' || c == b'_' || c == b':'

-- [a-z0-9._:-]
unfoldable pub is_reason_unit : ℕ → Bool
unfolding is_worker_unit
is_reason_unit c = is_worker_unit c || c == b'.' || c == b'_' || c == b':'

-- /^[class]{low,high}$/
unfoldable pub is_run : (ℕ → Bool) → ℕ → ℕ → Text → Bool
unfolding every
is_run class low high t = leb low (length t) && leb (length t) high && every class t

-- WORKER_ID = /^[a-z0-9][a-z0-9-]{0,62}$/
unfoldable pub is_worker_id : Text → Bool
unfolding is_run is_worker_unit
is_worker_id [] = false
is_worker_id (c ∷ t) = is_lower_or_digit c && is_run is_worker_unit 0 62 t

-- SHA = /^[0-9a-f]{40}$/
unfoldable pub is_sha : Text → Bool
unfolding is_run is_hex_unit
is_sha t = is_run is_hex_unit 40 40 t

-- DELIVERY = /^[A-Za-z0-9._:-]{1,128}$/
unfoldable pub is_delivery_id : Text → Bool
unfolding is_run is_delivery_unit
is_delivery_id t = is_run is_delivery_unit 1 128 t

-- /^[a-z0-9._:-]{1,64}$/
unfoldable pub is_reason : Text → Bool
unfolding is_run is_reason_unit
is_reason t = is_run is_reason_unit 1 64 t

-- `CONTROL_REPOSITORIES.has(t)`
unfoldable pub is_control_repository : Text → Bool
unfolding has_text
is_control_repository t = has_text control_repositories t

unfoldable pub is_valid_worker_id : Value → Bool
unfolding is_text_where is_worker_id
is_valid_worker_id v = is_text_where is_worker_id v

unfoldable pub is_valid_delivery_id : Value → Bool
unfolding is_text_where is_delivery_id
is_valid_delivery_id v = is_text_where is_delivery_id v

-- [A-Za-z0-9_.-]
unfoldable pub is_name_unit : ℕ → Bool
unfolding is_worker_unit
is_name_unit c = in_range b'A' b'Z' c || is_worker_unit c || c == b'_' || c == b'.'

-- /^[A-Za-z0-9_.-]+\/[A-Za-z0-9_.-]+$/, whose one slash is the first
unfoldable pub is_repo : Text → Bool
unfolding split_at every is_name_unit
is_repo t = elim (split_at b'/' t) [
  | none ↦ false
  | some (owner, name) ↦
      leb 1 (length owner)
      && every is_name_unit owner
      && leb 1 (length name)
      && every is_name_unit name
]
