-- ===== src/Relay/Paths.antt =====
-- The paths under `/relay/` of `cloudflare-relay/src/index.js`: `relayPathWorkerId`, and the
-- expression for recovery.
-- `decode` is `decodeURIComponent`, `none` where it throws.
use bke_worker.Text.{includes, text, starts_with, text_eq, split_at, Text}
use bke_worker.Prelude.{◌&&◌, ◌||◌, [], not, if◌then◌else◌, Option, drop, none, some}

-- The text after the prefix, if it is there.
unfoldable pub relay_remainder : Text → Option Text
relay_remainder pathname =
    if starts_with pathname (text "/relay/") then some (drop 7 pathname) else none

unfoldable pub relay_path_worker_id : (Text → Option Text) → Text → Option Text
relay_path_worker_id decode pathname = elim (relay_remainder pathname) [
  | none ↦ none
  | some remainder ↦
      if text_eq remainder [] || includes remainder (text "/") then none else decode remainder
]

-- /^\/relay\/([^/]+)\/recover$/, whose group ends at the first slash
unfoldable pub recovery_match : Text → Option Text
recovery_match pathname = elim (relay_remainder pathname) [
  | none ↦ none
  | some remainder ↦ elim (split_at b'/' remainder) [
    | none ↦ none
    | some (group, rest) ↦
        if not (text_eq group []) && text_eq rest (text "recover") then some group else none
  ]
]
