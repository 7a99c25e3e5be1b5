-- ===== src/Json.antt =====
-- The Python values that json.loads and callers hand to the program, and the identifiers of
-- monitor.py and requests.py (NAME, _IDENTIFIER).
pub mod Numeric
use codex_monitor.Common.{
  ℕ, ◌≡◌, String, Bool, true, false, ◌&&◌, not, Option, none, some, List, [], ◌∷◌, ◌==◌,
  if◌then◌else◌, member, codes, is_alnum, is_name_char, at_most, is_some,
}
use codex_monitor.Json.Numeric.{Number}

mutual
  pub data Value : Type 0 where
    null : Value
    boolean : Bool → Value
    number : Number → Value
    text : String → Value
    array : Items → Value
    object : Fields → Value
    -- a Python value of any other class
    opaque : Value

  pub data Items : Type 0 where
    -- the first item and the rest
    cons : (first : Value) → (rest : Items) → Items
    nil : Items

  -- A dict's entries, in the order of insertion; a reader takes the first of equal keys.
  pub data Fields : Type 0 where
    field : (key : String) → (value : Value) → (rest : Fields) → Fields
    end : Fields

-- `value.get(key)`; `none` where the key is missing.
unfoldable pub get_field : String → Fields → Option Value
get_field k end = none
get_field k (field j v fs) = if j == k then some v else get_field k fs

-- `key in value`
abbrev pub has_field : String → Fields → Bool
has_field k fs = is_some (get_field k fs)

-- `value[key]`; `none` where it raises.
abbrev pub entry : String → Value → Option Value
entry key (object fs) = get_field key fs
entry key _ = none

-- `value == s`
abbrev pub is_text : String → Value → Bool
is_text s (text t) = t == s
is_text s _ = false

-- `not (value.keys() - allowed)`
unfoldable pub only_keys : List String → Fields → Bool
only_keys allowed end = true
only_keys allowed (field k v fs) = member k allowed && only_keys allowed fs

name_codes : List ℕ → Bool
name_codes [] = false
name_codes (c ∷ cs) = is_alnum c && at_most is_name_char 199 cs

-- `NAME.fullmatch(value)`: `[A-Za-z0-9][A-Za-z0-9_.:@/-]{0,199}`.
unfoldable pub is_name : String → Bool
unfolding name_codes at_most
is_name s = name_codes (codes s)

-- `isinstance(value, str) and NAME.fullmatch(value)`
abbrev pub is_name_value : Value → Bool
is_name_value (text s) = is_name s
is_name_value _ = false

-- The text of an entry that has been checked to be one.
abbrev pub text_or_empty : Option Value → String
text_or_empty (some (text s)) = s
text_or_empty _ = ""

abbrev pub text_option : Option Value → Option String
text_option (some (text s)) = some s
text_option _ = none
