-- ===== src/Text.antt =====
-- JavaScript strings as the code compares, cuts and searches them: sequences of UTF-16 code units.
pub mod Equality
pub mod Distinct
pub mod Decimal
pub mod Digits
pub mod Numbered
use Prim.Native.Char.{code}
use bke_worker.Prelude.{
  some, none, Option, ℕ, zero, suc, ◌+◌, ◌-◌, ◌/◌, ◌%◌, String, Bool, true, false, ◌&&◌, ◌||◌, List,
  [], ◌∷◌, ◌++◌, ltb, leb, ◌==◌, if◌then◌else◌,
}

abbrev pub Text : Type 0
Text = List ℕ

-- The code units of a literal, which is ASCII throughout the program.
unfoldable pub text : String → Text
text String.[] = []
text (String.◌∷◌ c s) = code c ∷ text s

-- `a === b` on strings
unfoldable pub text_eq : Text → Text → Bool
text_eq [] [] = true
text_eq [] (y ∷ ys) = false
text_eq (x ∷ xs) [] = false
text_eq (x ∷ xs) (y ∷ ys) = (x == y) && text_eq xs ys

-- `a <= b` in the order of code units, by which `Array.prototype.sort` sorts strings
unfoldable pub text_leb : Text → Text → Bool
text_leb [] ys = true
text_leb (x ∷ xs) [] = false
text_leb (x ∷ xs) (y ∷ ys) = ltb x y || ((x == y) && text_leb xs ys)

-- `xs.includes(x)` on an array of strings, and `set.has(x)`
unfoldable pub has_text : List Text → Text → Bool
unfolding text_eq
has_text [] x = false
has_text (y ∷ ys) x = text_eq y x || has_text ys x

-- `t.startsWith(p)`
unfoldable pub starts_with : Text → Text → Bool
starts_with t [] = true
starts_with [] (p ∷ ps) = false
starts_with (c ∷ t) (p ∷ ps) = (c == p) && starts_with t ps

-- `t.includes(p)`
unfoldable pub includes : Text → Text → Bool
unfolding starts_with
includes [] p = starts_with [] p
includes (c ∷ t) p = starts_with (c ∷ t) p || includes t p

-- `t.endsWith(p)`
unfoldable pub ends_with : Text → Text → Bool
unfolding text_eq
ends_with [] p = text_eq [] p
ends_with (c ∷ t) p = text_eq (c ∷ t) p || ends_with t p

-- The text before the first unit `c`, and the text after it.
unfoldable pub split_at : ℕ → Text → Option (Text × Text)
split_at c [] = none
split_at c (x ∷ t) =
    if x == c
    then some ([], t)
    else elim (split_at c t) [ none ↦ none | some (before, after) ↦ some (x ∷ before, after) ]
