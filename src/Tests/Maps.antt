-- ===== src/Tests/Maps.antt =====
-- Maps and macros of cpp_lib/serialize/json.h at concrete inputs.
use mathlib.Core.Quot.{Quot}
use cpp_lib.Prelude.{
  ℕ, ◌+◌, ◌≡◌, ◌≢◌, refl, true, false, some, none, List, [], ◌∷◌, length, leb, if◌then◌else◌,
}
use cpp_lib.Serialize.Rapidjson.{Bytes}
use cpp_lib.Serialize.Parse.{
  get_json_filed_value, parse_scalar, parse_uint64, parse_unsigned, parse_uint16, parse_map,
}
use cpp_lib.Serialize.Write.{
  serialize_uint64, serialize_unsigned, serialize_uint16, serialize_map, add_json_member,
}
use cpp_lib.Serialize.Fields.{for_each}
use cpp_lib.Serialize.Macros.{json_for_each}
use cpp_lib.Serialize.Macros.Counted.{json_for_each-for_each}
use cpp_lib.Serialize.Maps.{StringMap, Entry, parse_map-serialize_map}
use cpp_lib.Tests.Documents.{Json, natural, object, no_member, json_lib}

abbrev Numbers : Type 0
Numbers = Entry json_lib (parse_uint16 json_lib) 0 (serialize_uint16 json_lib)

wrote_five :
    (json : Json) (name : Bytes)
    → serialize_uint16 json_lib json (some name) 5 false
      ≡ add_json_member json_lib json (some name) (natural 5)
unfolding serialize_uint16 serialize_unsigned serialize_uint64
wrote_five json name = refl

read_five : parse_uint16 json_lib (natural 5) [] 0 ≡ (true, 5)
unfolding parse_uint16 parse_unsigned parse_uint64 parse_scalar get_json_filed_value
read_five = refl

wrote_seven :
    (json : Json) (name : Bytes)
    → serialize_uint16 json_lib json (some name) 7 false
      ≡ add_json_member json_lib json (some name) (natural 7)
unfolding serialize_uint16 serialize_unsigned serialize_uint64
wrote_seven json name = refl

read_seven : parse_uint16 json_lib (natural 7) [] 0 ≡ (true, 7)
unfolding parse_uint16 parse_unsigned parse_uint64 parse_scalar get_json_filed_value
read_seven = refl

nonempty : (c : ℕ) → ◌≢◌ {A = Bytes} (c ∷ []) []
nonempty c e = cc

abbrev one : Numbers
one = record {
  key = 97 ∷ [];
  element = 5;
  reads_back = record { value = natural 5; wrote = wrote_five; read = read_five };
  key_nonempty = nonempty 97;
  key_terminated = refl;
}

abbrev two : Numbers
two = record {
  key = 98 ∷ [];
  element = 7;
  reads_back = record { value = natural 7; wrote = wrote_seven; read = read_seven };
  key_nonempty = nonempty 98;
  key_terminated = refl;
}

abbrev both : List (Bytes × ℕ)
both = (97 ∷ [], 5) ∷ (98 ∷ [], 7) ∷ []

parse_map-serialize_map_example :
    (m : List (Bytes × ℕ)) × (parse_map json_lib
        (parse_uint16 json_lib)
        0
        (serialize_map json_lib (serialize_uint16 json_lib) (object no_member) none both true)
        []
        []
      ≡ (true, m))
    × (◌≡◌ {A = StringMap ℕ} (Quot.mk m) (Quot.mk both))
parse_map-serialize_map_example =
    parse_map-serialize_map json_lib (parse_uint16 json_lib) 0 (serialize_uint16 json_lib)
      (one ∷ two ∷ []) [] (object no_member) true (refl, (refl, tt))

abbrev terms : List ℕ
terms = 4 ∷ 5 ∷ []

json_for_each-for_each_example :
    json_for_each ◌+◌ (3 ∷ terms) 0
    ≡ (if leb (length (3 ∷ terms)) 255 then some (for_each ◌+◌ (3 ∷ terms) 0) else none)
json_for_each-for_each_example = json_for_each-for_each ◌+◌ 3 terms 0
