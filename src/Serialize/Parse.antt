-- ===== src/Serialize/Parse.antt =====
-- The `Parse` overloads of cpp_lib/serialize/json.h. A parser returns its result and the variable
-- `v` as it leaves it.
use cpp_lib.Prelude.{
  ℕ, ◌-◌, ◌%◌, ◌^◌, Bool, true, false, not, ◌||◌, Option, none, some, List, [], ◌∷◌, ◌++◌, ltb,
  if◌then◌else◌,
}
use cpp_lib.Serialize.Integers.{ℤ, pos, above, below, to_unsigned, to_signed}
use cpp_lib.Serialize.Rapidjson.{Bytes, Rapidjson, c_str}

unfoldable pub get_json_filed_value : (R : Rapidjson) → R.Value → Bytes → Option R.Value
get_json_filed_value R json [] = some json
get_json_filed_value R json (c ∷ cs) = R.find_member json (c ∷ cs)

-- The shape of the overloads on a type that rapidjson holds: a test, then the value.
unfoldable pub parse_scalar :
    (R : Rapidjson) {A : Type 0} → (R.Value → Bool) → (R.Value → A) → R.Value → Bytes → A → Bool × A
parse_scalar R is get json name v = elim (get_json_filed_value R json name) [
  | none ↦ (false, v)
  | some val ↦ if not (is val) then (false, v) else (true, get val)
]

unfoldable pub parse_double : (R : Rapidjson) → R.Value → Bytes → R.Double → Bool × R.Double
parse_double R = parse_scalar R R.is_number R.get_double

unfoldable pub parse_float : (R : Rapidjson) → R.Value → Bytes → R.Float → Bool × R.Float
parse_float R = parse_scalar R R.is_number R.get_float

unfoldable pub parse_string : (R : Rapidjson) → R.Value → Bytes → Bytes → Bool × Bytes
parse_string R = parse_scalar R R.is_string R.get_string

unfoldable pub parse_bool : (R : Rapidjson) → R.Value → Bytes → Bool → Bool × Bool
parse_bool R = parse_scalar R R.is_bool R.get_bool

unfoldable pub parse_uint64 : (R : Rapidjson) → R.Value → Bytes → ℕ → Bool × ℕ
parse_uint64 R =
    parse_scalar R (λ val. R.is_uint64 val || R.is_uint val)
      (λ val. if R.is_uint64 val then R.get_uint64 val else R.get_uint val)

unfoldable pub parse_int64 : (R : Rapidjson) → R.Value → Bytes → ℤ → Bool × ℤ
parse_int64 R =
    parse_scalar R (λ val. R.is_int64 val || R.is_int val)
      (λ val. if R.is_int64 val then R.get_int64 val else R.get_int val)

-- `int32_t`, `int16_t` and `int8_t`, at half of their number of values.
unfoldable pub parse_signed : (R : Rapidjson) → ℕ → R.Value → Bytes → ℤ → Bool × ℤ
parse_signed R half json name v =
    let (parsed, vv) = parse_int64 R json name (pos 0) in
    if not parsed
    then (false, v)
    else if above vv (half - 1) || below vv half
    then (false, v)
    else (true, to_signed half vv)

unfoldable pub parse_int32 : (R : Rapidjson) → R.Value → Bytes → ℤ → Bool × ℤ
parse_int32 R = parse_signed R (2 ^ 31)

unfoldable pub parse_int16 : (R : Rapidjson) → R.Value → Bytes → ℤ → Bool × ℤ
parse_int16 R = parse_signed R (2 ^ 15)

unfoldable pub parse_int8 : (R : Rapidjson) → R.Value → Bytes → ℤ → Bool × ℤ
parse_int8 R = parse_signed R (2 ^ 7)

-- `uint32_t` and `uint16_t`, at their number of values.
unfoldable pub parse_unsigned : (R : Rapidjson) → ℕ → R.Value → Bytes → ℕ → Bool × ℕ
parse_unsigned R m json name v =
    let (parsed, vv) = parse_uint64 R json name 0 in
    if not parsed then (false, v) else if ltb (m - 1) vv then (false, v) else (true, vv % m)

unfoldable pub parse_uint32 : (R : Rapidjson) → R.Value → Bytes → ℕ → Bool × ℕ
parse_uint32 R = parse_unsigned R (2 ^ 32)

unfoldable pub parse_uint16 : (R : Rapidjson) → R.Value → Bytes → ℕ → Bool × ℕ
parse_uint16 R = parse_unsigned R (2 ^ 16)

-- `uint8_t`, which goes through `int64_t` and tests the upper bound alone.
unfoldable pub parse_uint8 : (R : Rapidjson) → R.Value → Bytes → ℕ → Bool × ℕ
parse_uint8 R json name v =
    let (parsed, vv) = parse_int64 R json name (pos 0) in
    if not parsed
    then (false, v)
    else if above vv (2 ^ 8 - 1)
    then (false, v)
    else (true, to_unsigned (2 ^ 8) vv)

-- The loop of the overloads on containers: `insert` is how an element enters the container,
-- `blank` the element's variable before it is read.
unfoldable pub parse_elements :
    (R : Rapidjson) {A C : Type 0}
    → (R.Value → Bytes → A → Bool × A)
    → A
    → (C → A → C)
    → List R.Value
    → C
    → Bool × C
parse_elements R parse blank insert [] v = (true, v)
parse_elements R parse blank insert (x ∷ xs) v =
    let rest = parse_elements R parse blank insert xs (insert v (parse x [] blank).1) in
    if (parse x [] blank).0 then rest else (false, v)

-- The overloads on a container of elements, which starts from the cleared one.
unfoldable pub parse_container :
    (R : Rapidjson) {A C : Type 0}
    → (R.Value → Bytes → A → Bool × A)
    → A
    → C
    → (C → A → C)
    → R.Value
    → Bytes
    → C
    → Bool × C
parse_container R parse blank cleared insert json name v = elim (get_json_filed_value R json name) [
  | none ↦ (false, v)
  | some val ↦
      if not (R.is_array val)
      then (false, v)
      else parse_elements R parse blank insert (R.elements val) cleared
]

-- `std::vector`, `std::deque` and `std::list`.
unfoldable pub parse_vector :
    (R : Rapidjson) {A : Type 0}
    → (R.Value → Bytes → A → Bool × A)
    → A
    → R.Value
    → Bytes
    → List A
    → Bool × List A
parse_vector R parse blank = parse_container R parse blank [] (λ v x. v ++ (x ∷ []))

unfoldable pub parse_members :
    (R : Rapidjson) {A : Type 0}
    → (R.Value → Bytes → A → Bool × A)
    → A
    → List (Bytes × R.Value)
    → List (Bytes × A)
    → Bool × List (Bytes × A)
parse_members R parse blank [] v = (true, v)
parse_members R parse blank ((k, x) ∷ xs) v =
    let rest = parse_members R parse blank xs ((c_str k, (parse x [] blank).1) ∷ v) in
    if (parse x [] blank).0 then rest else (false, v)

-- `std::map` and `std::unordered_map`, as the list of the assignments, the latest first.
unfoldable pub parse_map :
    (R : Rapidjson) {A : Type 0}
    → (R.Value → Bytes → A → Bool × A)
    → A
    → R.Value
    → Bytes
    → List (Bytes × A)
    → Bool × List (Bytes × A)
parse_map R parse blank json name v = elim (get_json_filed_value R json name) [
  | none ↦ (false, v)
  | some val ↦
      if not (R.is_object val) then (false, v) else parse_members R parse blank (R.members val) []
]
