-- ===== src/Json.antt =====
-- The values that `json.loads` returns, and what googlecloudprofiler does with them: `.get`, `in`,
-- subscripts and iteration, each with the exception that it raises on a value of another type.
use cloud_profiler_python.Prelude.{
  Bool, true, false, ◌||◌, Option, none, some, List, [], ◌∷◌, String, ◌==◌, string_eq,
}
use cloud_profiler_python.Prelude.Result.{
  Result, ok, err, attribute_error, type_error, key_error, or_raise,
}
use text.Mathlib.Text.{find?}

-- A number is its literal text.
mutual
  pub data Json : Type 0 where
    null : Json
    bool : Bool → Json
    num : String → Json
    str : String → Json
    arr : Items → Json
    obj : Fields → Json

  pub data Items : Type 0 where
    nil : Items
    cons : Json → Items → Items

  pub data Fields : Type 0 where
    end : Fields
    field : String → Json → Fields → Fields

unfoldable pub lookup : String → Fields → Option Json
lookup key end = none
lookup key (field k v fs) = elim (key == k) [ true ↦ some v | false ↦ lookup key fs ]

unfoldable pub elements : Items → List Json
elements nil = []
elements (cons x xs) = x ∷ elements xs

unfoldable pub names : Fields → List Json
names end = []
names (field k v fs) = str k ∷ names fs

unfoldable pub characters : String → List Json
characters String.[] = []
characters (String.◌∷◌ c s) = str (String.◌∷◌ c String.[]) ∷ characters s

abbrev get_or : Option Json → Json → Json
get_or none d = d
get_or (some v) d = v

-- `value.get(key, default)`
unfoldable pub get : Json → String → Json → Result Json
unfolding lookup
get (obj fs) key default = ok (get_or (lookup key fs) default)
get _ key default = err attribute_error

-- `for x in value`
unfoldable pub iterate : Json → Result (List Json)
unfolding elements names characters
iterate (arr xs) = ok (elements xs)
iterate (obj fs) = ok (names fs)
iterate (str s) = ok (characters s)
iterate _ = err type_error

abbrev is_some {ℓ} : {A : Type ℓ} → Option A → Bool
is_some none = false
is_some (some _) = true

is_text : String → Json → Bool
is_text key (str s) = key == s
is_text key _ = false

any_text : String → List Json → Bool
unfolding is_text
any_text key [] = false
any_text key (x ∷ xs) = is_text key x || any_text key xs

-- `key in value`
unfoldable pub contains_key : String → Json → Result Bool
unfolding lookup any_text elements
contains_key key (obj fs) = ok (is_some (lookup key fs))
contains_key key (arr xs) = ok (any_text key (elements xs))
contains_key key (str s) = ok (is_some (find? s key))
contains_key key _ = err type_error

-- `value[key]`, with a text for the key
unfoldable pub subscript : Json → String → Result Json
unfolding lookup
subscript (obj fs) key = or_raise key_error (lookup key fs)
subscript _ key = err type_error
