-- ===== src/Attempt/History.antt =====
-- The earlier conversations of an attempt: `denseValidHistory` of
-- `browser-extension/src/bootstrap-fence.ts`, which `fresh-attempt-gate.ts` writes a second time.
-- An
-- array has no holes here: a hole reads as `undefined`, and is refused as one.
use bke_worker.Prelude.{
  ◌==◌, every, suc, length, leb, ◌||◌, [], if◌then◌else◌, ◌&&◌, ◌∷◌, false, Bool, ℕ, List,
}
use bke_worker.Text.{has_text, Text}
use bke_worker.Attempt.Platform.{is_identifier}
use bke_worker.Js.Value.{is_text_where, elements, is_text, text_or_empty, is_array, Value}

abbrev pub max_prior_conversation_ids : ℕ
max_prior_conversation_ids = 1024

-- `new Set(xs).size`
unfoldable pub set_size : List Text → ℕ
set_size [] = 0
set_size (x ∷ xs) = if has_text xs x then set_size xs else suc (set_size xs)

-- The strings of an array.
unfoldable pub texts : List Value → List Text
texts [] = []
texts (v ∷ vs) = text_or_empty v ∷ texts vs

unfoldable pub dense_valid_history : Value → Bool
dense_valid_history v =
    is_array v
    && leb (length (elements v)) max_prior_conversation_ids
    && every (is_text_where is_identifier) (elements v)
    && set_size (texts (elements v)) == length (elements v)

-- `xs.includes(x)`, for a string `x`
unfoldable pub includes_text : List Value → Text → Bool
includes_text [] t = false
includes_text (v ∷ vs) t = is_text v t || includes_text vs t
