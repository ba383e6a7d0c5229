-- ===== src/Text/Distinct.antt =====
-- Lists of strings in which no string occurs twice.
use bke_worker.Prelude.{◌≡◌, false, List, [], ◌∷◌}
use bke_worker.Text.{Text, has_text}

-- No string occurs twice.
abbrev pub IsDistinct : List Text → Type 0
IsDistinct [] = Unit
IsDistinct (x ∷ xs) = (has_text xs x ≡ false) × IsDistinct xs
