-- ===== src/Predicate/Pointer.antt =====
-- `_pointer_tokens` and `_resolve`: JSON pointers, read and followed.
use Prim.Native.Char.{Char, code}
use Prim.Native.String.{len}
use codex_monitor.Common.{
  ℕ, zero, suc, ◌+◌, ◌-◌, ◌*◌, String, ◌&&◌, Option, none, some, List, [], ◌∷◌, ltb, leb, eqb,
  if◌then◌else◌, codes, Result, ok, err, ◌>>◌, refuse_if, length,
}
use codex_monitor.Json.{Value, Items, nil, cons, array, object, get_field}

abbrev pub push_char : Char → List String → List String
push_char c [] = String.◌∷◌ c "" ∷ []
push_char c (s ∷ ss) = String.◌∷◌ c s ∷ ss

-- `s.split("/")`
unfoldable pub split_slash : String → List String
split_slash String.[] = "" ∷ []
split_slash (String.◌∷◌ c s) =
    let rest = split_slash s in if eqb (code c) 47 then "" ∷ rest else push_char c rest

abbrev pub cons_char : Char → Option String → Option String
cons_char c none = none
cons_char c (some s) = some (String.◌∷◌ c s)

-- The decoding of one part; `none` where it has an invalid escape.
unfoldable pub unescape : String → Option String
unescape String.[] = some ""
unescape (String.◌∷◌ c String.[]) = if eqb (code c) 126 then none else some (String.◌∷◌ c "")
unescape (String.◌∷◌ c (String.◌∷◌ d s)) =
    let escaped = unescape s in
    let plain = unescape (String.◌∷◌ d s) in
    if eqb (code c) 126
    then (if eqb (code d) 48
        then cons_char "~" escaped
        else if eqb (code d) 49
        then cons_char "/" escaped
        else none)
    else cons_char c plain

unfoldable pub unescape_all : List String → Option (List String)
unescape_all [] = some []
unescape_all (s ∷ ss) = elim (unescape s) [
  | none ↦ none
  | some t ↦ elim (unescape_all ss) [ none ↦ none | some ts ↦ some (t ∷ ts) ]
]

abbrev pub max_pointer_bytes : ℕ
max_pointer_bytes = 1024

abbrev pub max_pointer_depth : ℕ
max_pointer_depth = 32

abbrev pub decoded : Option (List String) → Result (List String)
decoded none = err 400 "JSON pointer contains an invalid escape"
decoded (some tokens) = ok tokens

abbrev pub parts_of : List String → Result (List String)
parts_of parts = do
  refuse_if (ltb max_pointer_depth (length parts)) 400 "JSON pointer exceeds depth 32"
  decoded (unescape_all parts)

abbrev pub pointer_body : String → Result (List String)
pointer_body String.[] = ok []
pointer_body (String.◌∷◌ c rest) =
    if eqb (code c) 47
    then parts_of (split_slash rest)
    else err 400 "JSON pointer must be empty or start with '/'"

-- A native text is valid UTF-8, so encoding it cannot fail.
unfoldable pub pointer_tokens : String → Result (List String)
pointer_tokens pointer = do
  refuse_if (ltb max_pointer_bytes (len pointer)) 400 "JSON pointer exceeds 1024 bytes"
  pointer_body pointer

unfoldable pub get_item : ℕ → Items → Option Value
get_item i nil = none
get_item zero (cons v vs) = some v
get_item (suc i) (cons v vs) = get_item i vs

-- `int(token)` of ASCII digits; `none` where another character stands.
unfoldable pub read_digits : ℕ → List ℕ → Option ℕ
read_digits n [] = some n
read_digits n (c ∷ cs) =
    let rest = read_digits (n * 10 + (c - 48)) cs in if leb 48 c && leb c 57 then rest else none

unfoldable pub array_index : List ℕ → Option ℕ
unfolding read_digits
array_index [] = none
array_index (c ∷ []) = read_digits 0 (c ∷ [])
array_index (c ∷ d ∷ cs) = if eqb c 48 then none else read_digits 0 (c ∷ d ∷ cs)

abbrev item_at : Option ℕ → Items → Option Value
item_at none vs = none
item_at (some i) vs = get_item i vs

unfoldable pub child_of : Value → String → Option Value
unfolding array_index get_item get_field
child_of (object fs) token = get_field token fs
child_of (array vs) token = item_at (array_index (codes token)) vs
child_of _ token = none

-- `none` is Python's `(None, False)`.
unfoldable pub resolve : Value → List String → Option Value
unfolding child_of
resolve v [] = some v
resolve v (token ∷ tokens) = elim (child_of v token) [ none ↦ none | some w ↦ resolve w tokens ]
