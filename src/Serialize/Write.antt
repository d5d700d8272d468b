-- ===== src/Serialize/Write.antt =====
-- The `Serialize` overloads of cpp_lib/serialize/json.h. Each returns `json` as it leaves it.
use cpp_lib.Prelude.{
  ℕ, Bool, true, false, not, ◌&&◌, ◌==◌, Option, none, some, List, [], ◌∷◌, if◌then◌else◌,
}
use cpp_lib.Serialize.Integers.{ℤ, pos, negsuc}
use cpp_lib.Serialize.Rapidjson.{Bytes, Rapidjson, c_str}

-- `name` is `none` for `NULL`.
unfoldable pub add_json_member : (R : Rapidjson) → R.Value → Option Bytes → R.Value → R.Value
add_json_member R json none value = value
add_json_member R json (some []) value = R.push_back json value
add_json_member R json (some (c ∷ cs)) value = R.add_member json (c ∷ cs) value

unfoldable pub serialize_uint64 : (R : Rapidjson) → R.Value → Option Bytes → ℕ → Bool → R.Value
serialize_uint64 R json name v ignore_default =
    if ignore_default && (0 == v) then json else add_json_member R json name (R.from_uint64 v)

unfoldable pub serialize_double :
    (R : Rapidjson) → R.Value → Option Bytes → R.Double → Bool → R.Value
serialize_double R json name v ignore_default =
    if ignore_default && R.is_zero_double v
    then json
    else add_json_member R json name (R.from_double v)

unfoldable pub serialize_float : (R : Rapidjson) → R.Value → Option Bytes → R.Float → Bool → R.Value
serialize_float R json name v ignore_default =
    if ignore_default && R.is_zero_double (R.widen v)
    then json
    else add_json_member R json name (R.from_double (R.widen v))

abbrev pub is_empty : Bytes → Bool
is_empty [] = true
is_empty (c ∷ cs) = false

abbrev pub is_zero : ℤ → Bool
is_zero (pos n) = 0 == n
is_zero (negsuc n) = false

unfoldable pub serialize_int64 : (R : Rapidjson) → R.Value → Option Bytes → ℤ → Bool → R.Value
serialize_int64 R json name v ignore_default =
    if ignore_default && is_zero v then json else add_json_member R json name (R.from_int64 v)

unfoldable pub serialize_string : (R : Rapidjson) → R.Value → Option Bytes → Bytes → Bool → R.Value
serialize_string R json name v ignore_default =
    if ignore_default && is_empty v then json else add_json_member R json name (R.from_string v)

unfoldable pub serialize_bool : (R : Rapidjson) → R.Value → Option Bytes → Bool → Bool → R.Value
serialize_bool R json name v ignore_default =
    if ignore_default && not v then json else add_json_member R json name (R.from_bool v)

-- The shape of the overloads on `int32_t`, `int16_t` and `int8_t`.
unfoldable pub serialize_signed : (R : Rapidjson) → R.Value → Option Bytes → ℤ → Bool → R.Value
serialize_signed R json name v ignore_default =
    let vv : ℤ = v in serialize_int64 R json name vv ignore_default

-- The shape of the overloads on `uint32_t`, `uint16_t` and `uint8_t`.
unfoldable pub serialize_unsigned : (R : Rapidjson) → R.Value → Option Bytes → ℕ → Bool → R.Value
serialize_unsigned R json name v ignore_default =
    let vv : ℕ = v in serialize_uint64 R json name vv ignore_default

unfoldable pub serialize_int32 : (R : Rapidjson) → R.Value → Option Bytes → ℤ → Bool → R.Value
serialize_int32 R = serialize_signed R

unfoldable pub serialize_uint32 : (R : Rapidjson) → R.Value → Option Bytes → ℕ → Bool → R.Value
serialize_uint32 R = serialize_unsigned R

unfoldable pub serialize_int16 : (R : Rapidjson) → R.Value → Option Bytes → ℤ → Bool → R.Value
serialize_int16 R = serialize_signed R

unfoldable pub serialize_uint16 : (R : Rapidjson) → R.Value → Option Bytes → ℕ → Bool → R.Value
serialize_uint16 R = serialize_unsigned R

unfoldable pub serialize_int8 : (R : Rapidjson) → R.Value → Option Bytes → ℤ → Bool → R.Value
serialize_int8 R = serialize_signed R

unfoldable pub serialize_uint8 : (R : Rapidjson) → R.Value → Option Bytes → ℕ → Bool → R.Value
serialize_uint8 R = serialize_unsigned R

-- The loop of the overloads on containers of elements.
unfoldable pub serialize_elements :
    (R : Rapidjson) {A : Type 0}
    → (R.Value → Option Bytes → A → Bool → R.Value)
    → R.Value
    → List A
    → R.Value
serialize_elements R serialize json [] = json
serialize_elements R serialize json (x ∷ xs) =
    serialize_elements R serialize (serialize json (some []) x false) xs

-- `std::vector`, `std::deque`, `std::list`, and the sets in the order of their iterators.
unfoldable pub serialize_vector :
    (R : Rapidjson) {A : Type 0}
    → (R.Value → Option Bytes → A → Bool → R.Value)
    → R.Value
    → Option Bytes
    → List A
    → Bool
    → R.Value
serialize_vector R serialize json name v ignore_default =
    add_json_member R json name (serialize_elements R serialize R.new_array v)

unfoldable pub serialize_members :
    (R : Rapidjson) {A : Type 0}
    → (R.Value → Option Bytes → A → Bool → R.Value)
    → R.Value
    → List (Bytes × A)
    → R.Value
serialize_members R serialize json [] = json
serialize_members R serialize json ((k, x) ∷ xs) =
    serialize_members R serialize (serialize json (some (c_str k)) x false) xs

-- `std::map` and `std::unordered_map`.
unfoldable pub serialize_map :
    (R : Rapidjson) {A : Type 0}
    → (R.Value → Option Bytes → A → Bool → R.Value)
    → R.Value
    → Option Bytes
    → List (Bytes × A)
    → Bool
    → R.Value
serialize_map R serialize json name v ignore_default =
    add_json_member R json name (serialize_members R serialize R.new_object v)
