-- ===== src/Protocol/Routing/Labels.antt =====
-- The assignment labels of a pull request: `readWorkerLabels` and `workerIdFromLabel` of
-- `cloudflare-relay/src/protocol.js`.
use bke_worker.Text.{text, starts_with, Text, text_eq}
use bke_worker.Js.Value.{get, elements, text_or_empty, Value}
use bke_worker.Protocol.Patterns.{is_worker_id}
use bke_worker.Prelude.{
  none, some, ◌&&◌, if◌then◌else◌, [], length, ◌∷◌, drop, map, List, Option, Bool,
}

abbrev pub assignment_label_prefix : Text
assignment_label_prefix = text "bke-worker:"

-- `map.set(key, value)`: a key that is there keeps its place and gets the new value.
unfoldable pub set_entry : Text → Text → List (Text × Text) → List (Text × Text)
unfolding text_eq
set_entry key value [] = (key, value) ∷ []
set_entry key value (entry ∷ rest) =
    if text_eq entry.0 key then (entry.0, value) ∷ rest else entry ∷ set_entry key value rest

-- `new Map(labels.map((label) => [label.toLowerCase(), label]))`, over a map that is there
unfoldable pub set_labels : (Text → Text) → List Text → List (Text × Text) → List (Text × Text)
unfolding set_entry
set_labels lower [] entries = entries
set_labels lower (label ∷ rest) entries =
    set_labels lower rest (set_entry (lower label) label entries)

unfoldable pub is_assignment_label : (Text → Text) → Text → Bool
unfolding starts_with
is_assignment_label lower label = starts_with (lower label) assignment_label_prefix

-- The names in the array that name a worker, as they are spelled.
unfoldable pub labels_in : (Text → Text) → List Value → List Text
unfolding is_assignment_label
labels_in lower [] = []
labels_in lower (item ∷ rest) =
    let name = text_or_empty (get item (text "name")) in
    if is_assignment_label lower name then name ∷ labels_in lower rest else labels_in lower rest

-- The last spelling of each name; no labels if `labels` is no array.
unfoldable pub read_worker_labels : (Text → Text) → Value → List Text
unfolding labels_in set_labels
read_worker_labels lower pull =
    map (λ entry. entry.1)
      (set_labels lower (labels_in lower (elements (get pull (text "labels")))) [])

unfoldable pub worker_id_from_label : (Text → Text) → Text → Option Text
unfolding is_assignment_label
worker_id_from_label lower label =
    let worker_id = drop (length assignment_label_prefix) label in
    if is_assignment_label lower label && is_worker_id worker_id then some worker_id else none
