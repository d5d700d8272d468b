-- ===== src/Serialize/Types.antt =====
-- The `Parse` overloads of cpp_lib/serialize/json.h by type: the template of a container at a type
-- calls the overload of its elements, at any depth.
pub mod Accepts
pub mod ReadBack
use cpp_lib.Prelude.{
  ℕ, ◌-◌, ◌^◌, ◌≡◌, refl, ap, ◌∙◌, Bool, true, false, not, ◌&&◌, ◌||◌, Bool-cases, inl, inr, Option,
  none, some, Option-cases, List, [], ◌∷◌, ◌++◌, ltb, if◌then◌else◌, arith,
}
use cpp_lib.Serialize.Integers.{ℤ, pos, above, below}
use cpp_lib.Serialize.Rapidjson.{Bytes, Rapidjson}
use cpp_lib.Serialize.Parse.{
  get_json_filed_value, parse_scalar, parse_double, parse_float, parse_string, parse_bool,
  parse_uint64, parse_int64, parse_signed, parse_int32, parse_int16, parse_int8, parse_unsigned,
  parse_uint32, parse_uint16, parse_uint8, parse_elements, parse_container, parse_vector,
  parse_members, parse_map,
}
use cpp_lib.Serialize.Write.{
  serialize_double, serialize_float, serialize_string, serialize_bool, serialize_uint64,
  serialize_int64, serialize_uint32, serialize_int32, serialize_uint16, serialize_int16,
  serialize_uint8, serialize_int8, serialize_vector, serialize_map,
}

-- The types of variables that have an overload, structs left out.
pub data CppType : Type 0 where
  bool double float string uint64 int64 uint32 int32 uint16 int16 uint8 int8 : CppType
  vector map : CppType → CppType

module _ (R : Rapidjson) where
  abbrev pub Carrier : CppType → Type 0
  Carrier bool = Bool
  Carrier double = R.Double
  Carrier float = R.Float
  Carrier string = Bytes
  Carrier uint64 = ℕ
  Carrier int64 = ℤ
  Carrier uint32 = ℕ
  Carrier int32 = ℤ
  Carrier uint16 = ℕ
  Carrier int16 = ℤ
  Carrier uint8 = ℕ
  Carrier int8 = ℤ
  Carrier (vector t) = List (Carrier t)
  Carrier (map t) = List (Bytes × Carrier t)

  abbrev pub every : (R.Value → Bool) → List R.Value → Bool
  every p [] = true
  every p (x ∷ xs) = p x && every p xs

  abbrev pub every_member : (R.Value → Bool) → List (Bytes × R.Value) → Bool
  every_member p [] = true
  every_member p ((k, x) ∷ xs) = p x && every_member p xs

  abbrev pub is_natural : R.Value → Bool
  is_natural x = R.is_uint64 x || R.is_uint x

  abbrev pub natural : R.Value → ℕ
  natural x = if R.is_uint64 x then R.get_uint64 x else R.get_uint x

  abbrev pub is_integer : R.Value → Bool
  is_integer x = R.is_int64 x || R.is_int x

  abbrev pub integer : R.Value → ℤ
  integer x = if R.is_int64 x then R.get_int64 x else R.get_int x

  -- A JSON value of the type: of its kind, within its range, with elements of their type.
  abbrev pub has_type : CppType → R.Value → Bool
  has_type bool x = R.is_bool x
  has_type double x = R.is_number x
  has_type float x = R.is_number x
  has_type string x = R.is_string x
  has_type uint64 x = is_natural x
  has_type int64 x = is_integer x
  has_type uint32 x = is_natural x && not (ltb (2 ^ 32 - 1) (natural x))
  has_type int32 x =
      is_integer x && not (above (integer x) (2 ^ 31 - 1) || below (integer x) (2 ^ 31))
  has_type uint16 x = is_natural x && not (ltb (2 ^ 16 - 1) (natural x))
  has_type int16 x =
      is_integer x && not (above (integer x) (2 ^ 15 - 1) || below (integer x) (2 ^ 15))
  has_type uint8 x = is_integer x && not (above (integer x) (2 ^ 8 - 1))
  has_type int8 x = is_integer x && not (above (integer x) (2 ^ 7 - 1) || below (integer x) (2 ^ 7))
  has_type (vector t) x = R.is_array x && every (has_type t) (R.elements x)
  has_type (map t) x = R.is_object x && every_member (has_type t) (R.members x)

  -- What a test says of the member of that name, or of the value itself for the empty name.
  abbrev pub at_field : (R.Value → Bool) → Option R.Value → Bool
  at_field p none = false
  at_field p (some x) = p x

  -- The `Serialize` overload of a type.
  unfoldable pub serialize : (t : CppType) → R.Value → Option Bytes → Carrier t → Bool → R.Value
  serialize bool = serialize_bool R
  serialize double = serialize_double R
  serialize float = serialize_float R
  serialize string = serialize_string R
  serialize uint64 = serialize_uint64 R
  serialize int64 = serialize_int64 R
  serialize uint32 = serialize_uint32 R
  serialize int32 = serialize_int32 R
  serialize uint16 = serialize_uint16 R
  serialize int16 = serialize_int16 R
  serialize uint8 = serialize_uint8 R
  serialize int8 = serialize_int8 R
  serialize (vector t) = serialize_vector R (serialize t)
  serialize (map t) = serialize_map R (serialize t)

  module _ (blank : (t : CppType) → Carrier t) where
    -- The overload of a type. `blank` is what a variable holds that is not initialised.
    unfoldable pub parse : (t : CppType) → R.Value → Bytes → Carrier t → Bool × Carrier t
    parse bool = parse_bool R
    parse double = parse_double R
    parse float = parse_float R
    parse string = parse_string R
    parse uint64 = parse_uint64 R
    parse int64 = parse_int64 R
    parse uint32 = parse_uint32 R
    parse int32 = parse_int32 R
    parse uint16 = parse_uint16 R
    parse int16 = parse_int16 R
    parse uint8 = parse_uint8 R
    parse int8 = parse_int8 R
    parse (vector t) = parse_vector R (parse t) (blank t)
    parse (map t) = parse_map R (parse t) (blank t)
