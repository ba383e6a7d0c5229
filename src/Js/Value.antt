-- ===== src/Js/Value.antt =====
-- Values and the reads that the code makes of them. `JSON.parse` gives every object its own
-- properties, each key once; a read of a missing property, or of a property of a value that is no
-- object, gives `undefined`, as `?.` does.
use bke_worker.Prelude.{
  ◌&&◌, ltb, ◌==◌, none, some, Option, ℕ, Bool, true, false, List, [], ◌∷◌, if◌then◌else◌,
}
use bke_worker.Text.{Text, text_eq}
use bke_worker.Js.Integer.{pos, same_integer, ℤ, is_positive, equals_ℕ, to_ℕ}

-- `fraction` is a number that is no integer; which one is never asked.
mutual
  pub data Value : Type 0 where
    undefined : Value
    null : Value
    bool : Bool → Value
    num : ℤ → Value
    fraction : ℕ → Value
    str : Text → Value
    arr : Items → Value
    obj : Fields → Value

  pub data Items : Type 0 where
    nil : Items
    cons : Value → Items → Items

  pub data Fields : Type 0 where
    end : Fields
    field : Text → Value → Fields → Fields

abbrev pub items : Items → List Value
items nil = []
items (cons v vs) = v ∷ items vs

-- `Object.keys(value)`
abbrev pub keys : Fields → List Text
keys end = []
keys (field k v fs) = k ∷ keys fs

unfoldable pub get_field : Text → Fields → Value
unfolding text_eq
get_field key end = undefined
get_field key (field k v fs) = if text_eq k key then v else get_field key fs

-- `value?.key`
unfoldable pub get : Value → Text → Value
unfolding get_field
get (obj fs) key = get_field key fs
get v key = undefined

-- `value !== null && typeof value === "object" && !Array.isArray(value)`
unfoldable pub is_object : Value → Bool
is_object (obj fs) = true
is_object v = false

-- `Array.isArray(value)`
unfoldable pub is_array : Value → Bool
is_array (arr vs) = true
is_array v = false

-- The elements of an array, and none of any other value.
unfoldable pub elements : Value → List Value
elements (arr vs) = items vs
elements v = []

-- `value === t`, for a string `t`
unfoldable pub is_text : Value → Text → Bool
unfolding text_eq
is_text (str s) t = text_eq s t
is_text v t = false

-- `value === n`, for a whole number `n`
unfoldable pub is_num : Value → ℕ → Bool
is_num (num z) n = equals_ℕ z n
is_num v n = false

-- `typeof value === "string" && p(value)`
unfoldable pub is_text_where : (Text → Bool) → Value → Bool
is_text_where p (str s) = p s
is_text_where p v = false

-- `Number.isInteger(value) && value > 0`
unfoldable pub is_positive_integer : Value → Bool
is_positive_integer (num z) = is_positive z
is_positive_integer v = false

-- `typeof value === "string" ? value : ""`
unfoldable pub text_or_empty : Value → Text
text_or_empty (str s) = s
text_or_empty v = []

-- The number behind a value that was tested to be a positive integer.
unfoldable pub number_of : Value → ℕ
number_of (num z) = to_ℕ z
number_of v = 0

-- `typeof value === "string" ? value : null`
unfoldable pub text_or_none : Value → Option Text
text_or_none (str s) = some s
text_or_none v = none

-- `value === undefined`
unfoldable pub is_undefined : Value → Bool
is_undefined undefined = true
is_undefined v = false

-- `a === b`, where no object or array is compared with itself
unfoldable pub same_value : Value → Value → Bool
unfolding text_eq
same_value undefined undefined = true
same_value null null = true
same_value (bool true) (bool true) = true
same_value (bool false) (bool false) = true
same_value (num a) (num b) = same_integer a b
same_value (fraction a) (fraction b) = a == b
same_value (str s) (str t) = text_eq s t
same_value a b = false

-- The properties of an object, none of any other value.
unfoldable pub fields_of : Value → Fields
fields_of (obj fs) = fs
fields_of v = end

-- `Number.isSafeInteger(value) && value > 0`
unfoldable pub is_positive_safe : Value → Bool
is_positive_safe (num (pos n)) = ltb 0 n && ltb n 9007199254740992
is_positive_safe v = false
