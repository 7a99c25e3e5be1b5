-- ===== src/Predicate/Equality.antt =====
-- `_json_type`, `_strict_equal` and the deep check of `_finite_json`.
use codex_monitor.Common.{Bool, true, false, ◌&&◌, not, none, some, if◌then◌else◌, ◌==◌}
use codex_monitor.Json.{
  Value, Items, Fields, null, boolean, number, text, array, object, opaque, nil, cons, end, field,
  get_field, has_field,
}
use codex_monitor.Json.Numeric.{Number, nonfinite, number_eq}

pub data JsonType : Type 0 where
  null_type boolean_type number_type string_type array_type object_type no_type : JsonType

-- `_json_number`
abbrev pub is_finite : Number → Bool
is_finite nonfinite = false
is_finite _ = true

unfoldable pub json_type : Value → JsonType
json_type null = JsonType.null_type
json_type (boolean b) = JsonType.boolean_type
json_type (number n) = if is_finite n then JsonType.number_type else JsonType.no_type
json_type (text s) = JsonType.string_type
json_type (array vs) = JsonType.array_type
json_type (object fs) = JsonType.object_type
json_type opaque = JsonType.no_type

abbrev same_bool : Bool → Bool → Bool
same_bool true b = b
same_bool false b = not b

-- `left.keys() <= right.keys()`
unfoldable pub keys_within : Fields → Fields → Bool
keys_within end gs = true
keys_within (field k v fs) gs = has_field k gs && keys_within fs gs

-- Two values of different types differ; numbers are compared by value, and objects by key.
unfoldable mutual
  pub strict_equal : Value → Value → Bool
  strict_equal null null = true
  strict_equal (boolean a) (boolean b) = same_bool a b
  strict_equal (number a) (number b) = is_finite a && (is_finite b && number_eq a b)
  strict_equal (text a) (text b) = a == b
  strict_equal (array vs) (array ws) = items_equal vs ws
  strict_equal (object fs) (object gs) =
      keys_within fs gs && (keys_within gs fs && fields_equal fs gs)
  strict_equal _ _ = false

  pub items_equal : Items → Items → Bool
  items_equal nil nil = true
  items_equal (cons v vs) (cons w ws) = strict_equal v w && items_equal vs ws
  items_equal _ _ = false

  pub fields_equal : Fields → Fields → Bool
  fields_equal end gs = true
  fields_equal (field k v fs) gs =
      elim (get_field k gs) [ none ↦ false | some w ↦ strict_equal v w ] && fields_equal fs gs

-- `valid` of `_finite_json`. The keys of a `Fields` are texts.
unfoldable mutual
  pub finite_json : Value → Bool
  finite_json (number n) = is_finite n
  finite_json (array vs) = finite_items vs
  finite_json (object fs) = finite_fields fs
  finite_json opaque = false
  finite_json _ = true

  pub finite_items : Items → Bool
  finite_items nil = true
  finite_items (cons v vs) = finite_json v && finite_items vs

  pub finite_fields : Fields → Bool
  finite_fields end = true
  finite_fields (field k v fs) = finite_json v && finite_fields fs
