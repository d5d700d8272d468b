-- ===== src/Serialize/Fields.antt =====
-- The macros of cpp_lib/serialize/json.h that give a struct its `PraseFromJson` and `WriteToJson`.
use cpp_lib.Prelude.{Bool, true, false, not, Option, none, some, List, [], ◌∷◌, if◌then◌else◌}
use cpp_lib.Serialize.Rapidjson.{Bytes, Rapidjson, bytes_equal}
use cpp_lib.Serialize.Parse.{get_json_filed_value}
use cpp_lib.Serialize.Write.{add_json_member}

-- `GetFieldName` on the pairs of `JSON_DEFINE_FIELD_MAPPING`, none for a struct without it.
unfoldable pub get_field_name : List (Bytes × Bytes) → Bytes → Bytes
get_field_name [] v = v
get_field_name ((k, mapped) ∷ rest) v = if bytes_equal k v then mapped else get_field_name rest v

-- A field of the struct `S`: its name, the `Parse` overload that writes it, and the `Serialize`
-- overload that reads it.
pub record Field (R : Rapidjson) (S : Type 0) : Type 0 where
  pub name : Bytes
  pub parse : R.Value → Bytes → S → Bool × S
  pub serialize : R.Value → Option Bytes → S → Bool → R.Value

-- `JSON_FOR_EACH`: the statements in order.
unfoldable pub for_each : {A S : Type 0} → (A → S → S) → List A → S → S
for_each what [] s = s
for_each what (x ∷ xs) s = for_each what xs (what x s)

-- `JSON_PARSE_JSON`: the result of `Parse` is dropped.
unfoldable pub json_parse_json :
    (R : Rapidjson) {S : Type 0} → List (Bytes × Bytes) → R.Value → Field R S → S → S
json_parse_json R mapping json field s = (field.parse json (get_field_name mapping field.name) s).1

-- `JSON_DEFINE_FIELDS`
unfoldable pub prase_from_json :
    (R : Rapidjson) {S : Type 0} → List (Bytes × Bytes) → List (Field R S) → R.Value → S → Bool × S
prase_from_json R mapping fields json s = (true, for_each (json_parse_json R mapping json) fields s)

-- `Parse` on a struct.
unfoldable pub parse_struct :
    (R : Rapidjson) {S : Type 0}
    → List (Bytes × Bytes)
    → List (Field R S)
    → R.Value
    → Bytes
    → S
    → Bool × S
parse_struct R mapping fields json name v = elim (get_json_filed_value R json name) [
  | none ↦ (false, v)
  | some val ↦ if not (R.is_object val) then (false, v) else prase_from_json R mapping fields val v
]

-- `JSON_SERIALIZE_JSON`
unfoldable pub json_serialize_json :
    (R : Rapidjson) {S : Type 0} → List (Bytes × Bytes) → S → Bool → Field R S → R.Value → R.Value
json_serialize_json R mapping s ignore_default field json =
    field.serialize json (some (get_field_name mapping field.name)) s ignore_default

unfoldable pub write_to_json :
    (R : Rapidjson) {S : Type 0}
    → List (Bytes × Bytes)
    → List (Field R S)
    → S
    → R.Value
    → Bool
    → R.Value
write_to_json R mapping fields s json ignore_default =
    for_each (json_serialize_json R mapping s ignore_default) fields json

-- `Serialize` on a struct.
unfoldable pub serialize_struct :
    (R : Rapidjson) {S : Type 0}
    → List (Bytes × Bytes)
    → List (Field R S)
    → R.Value
    → Option Bytes
    → S
    → Bool
    → R.Value
serialize_struct R mapping fields json name v ignore_default =
    add_json_member R json name (write_to_json R mapping fields v R.new_object ignore_default)
