-- ===== src/Tests/Json.antt =====
-- The theorems on cpp_lib/serialize at concrete inputs.
use cpp_lib.Prelude.{
  inr, ℕ, ◌+◌, ◌^◌, ◌≡◌, refl, Bool, true, false, Option, some, none, List, [], ◌∷◌, ◌++◌, arith,
}
use cpp_lib.Serialize.Integers.{pos, negsuc}
use cpp_lib.Serialize.Rapidjson.{Bytes, first_member}
use cpp_lib.Serialize.Parse.{
  get_json_filed_value, parse_scalar, parse_int64, parse_uint64, parse_unsigned,
}
use cpp_lib.Serialize.Write.{serialize_uint64, serialize_unsigned, add_json_member}
use cpp_lib.Serialize.Fields.{
  Field, get_field_name, parse_struct, for_each, json_serialize_json, write_to_json,
  serialize_struct,
}
use cpp_lib.Serialize.Text.{write_to_json_file, parse_from_json_file}
use cpp_lib.Serialize.Text.RoundTrip.{
  Member, DistinctNames, parse_from_json_file-write_to_json_file,
}
use cpp_lib.Serialize.Types
use cpp_lib.Serialize.Types.{CppType, Carrier, has_type, at_field}
use cpp_lib.Serialize.Types.Accepts.{parse-has_type}
use cpp_lib.Serialize.Types.ReadBack.{parse-serialize}
use cpp_lib.Serialize.Structs.{Fails, parse_struct-one_field}
use cpp_lib.Reloader.Config.{Config}
use cpp_lib.Reloader.Config.Written.{loaded_times}
use cpp_lib.Tests.Documents.{
  Json, array, cons, nil, natural, integer, object, no_member, member, json_lib,
}

read_negative : parse_int64 json_lib (integer (negsuc 4)) [] (pos 0) ≡ (true, negsuc 4)
unfolding parse_int64 parse_scalar get_json_filed_value
read_negative = refl

-- A struct of two numbers, and an object with the second alone.
abbrev first : Field json_lib (ℕ × ℕ)
first = record {
  name = 97 ∷ [];
  parse =
      λ json name s. let (ok, v) = parse_unsigned json_lib (2 ^ 16) json name s.0 in (ok, (v, s.1));
  serialize = λ json name s ignore. serialize_unsigned json_lib json name s.0 ignore;
}

abbrev second : Field json_lib (ℕ × ℕ)
second = record {
  name = 98 ∷ [];
  parse =
      λ json name s. let (ok, v) = parse_unsigned json_lib (2 ^ 16) json name s.1 in (ok, (s.0, v));
  serialize = λ json name s ignore. serialize_unsigned json_lib json name s.1 ignore;
}

abbrev half : Json
half = object (member (98 ∷ []) (natural 8) no_member)

first-Fails : Fails json_lib [] half (1, 2) first
unfolding parse_unsigned parse_uint64 parse_scalar get_json_filed_value get_field_name
first-Fails = refl

second_parses : second.parse half (get_field_name [] second.name) (1, 2) ≡ (true, (1, 8))
unfolding parse_unsigned parse_uint64 parse_scalar get_json_filed_value get_field_name
second_parses = refl

parse_struct-one_field_example :
    parse_struct json_lib [] ((first ∷ []) ++ (second ∷ [])) half [] (1, 2) ≡ (true, (1, 8))
unfolding get_json_filed_value
parse_struct-one_field_example =
    parse_struct-one_field json_lib [] half half [] (1, 2) (1, 8) (first ∷ []) [] second refl refl
      (first-Fails, tt) second_parses tt

first-writes :
    (json : Json) (name : Bytes)
    → first.serialize json (some name) (5, 7) false
      ≡ add_json_member json_lib json (some name) (natural 5)
unfolding serialize_unsigned serialize_uint64
first-writes json name = refl

second-writes :
    (json : Json) (name : Bytes)
    → second.serialize json (some name) (5, 7) false
      ≡ add_json_member json_lib json (some name) (natural 7)
unfolding serialize_unsigned serialize_uint64
second-writes json name = refl

first-reads :
    (json : Json) (name : Bytes) (t : ℕ × ℕ)
    → get_json_filed_value json_lib json name ≡ some (natural 5)
    → first.parse json name t ≡ (true, (5, t.1))
unfolding parse_unsigned parse_uint64 parse_scalar
first-reads json name t h = rw (parse_unsigned, parse_uint64, parse_scalar, h) refl

second-reads :
    (json : Json) (name : Bytes) (t : ℕ × ℕ)
    → get_json_filed_value json_lib json name ≡ some (natural 7)
    → second.parse json name t ≡ (true, (t.0, 7))
unfolding parse_unsigned parse_uint64 parse_scalar
second-reads json name t h = rw (parse_unsigned, parse_uint64, parse_scalar, h) refl

-- Two numbers, and their fields, as they are written and read.
abbrev numbers : ℕ × ℕ
numbers = (5, 7)

abbrev five : Member json_lib [] numbers
five = record {
  field = first;
  value = natural 5;
  copy = λ t. (5, t.1);
  wrote = first-writes;
  read = first-reads;
}

abbrev seven : Member json_lib [] numbers
seven = record {
  field = second;
  value = natural 7;
  copy = λ t. (t.0, 7);
  wrote = second-writes;
  read = second-reads;
}

abbrev document : Json
document = object (member (97 ∷ []) (natural 5) (member (98 ∷ []) (natural 7) no_member))

-- The text is of no matter here: one that stands for the document.
abbrev read_text : Bytes → Option Json
read_text text = some document

abbrev print_text : Bool → Json → Bytes
print_text pretty doc = 123 ∷ 125 ∷ []

abbrev both : List (Field json_lib (ℕ × ℕ))
both = first ∷ second ∷ []

names-DistinctNames : DistinctNames json_lib [] numbers (five ∷ seven ∷ [])
unfolding get_field_name
names-DistinctNames = (ground arith, (ground arith, tt), (ground arith, tt, tt))

printed :
    read_text
      (print_text true (serialize_struct json_lib [] both (object no_member) none numbers false))
    ≡ some (serialize_struct json_lib [] both (object no_member) none numbers false)
unfolding serialize_struct write_to_json for_each json_serialize_json add_json_member
    serialize_unsigned serialize_uint64 get_field_name
printed = refl

parse_from_json_file-write_to_json_file_example :
    (file : Option Bytes) × (write_to_json_file json_lib
        (serialize_struct json_lib [] both)
        print_text
        true
        numbers
        true
        false
      ≡ (pos 0, file))
    × (parse_from_json_file json_lib (parse_struct json_lib [] both) read_text true file (0, 0)
        ≡ (true, numbers))
parse_from_json_file-write_to_json_file_example =
    parse_from_json_file-write_to_json_file json_lib [] numbers read_text print_text
      (five ∷ seven ∷ []) true (0, 0) names-DistinctNames printed (omega arith) refl

-- A configuration that has been loaded once.
abbrev pair_config : Config (ℕ × ℕ)
pair_config = loaded_times 1 5 true (λ a. (0, 0))

abbrev read_file : ℕ → Bytes
read_file path = 123 ∷ 125 ∷ []

abbrev checked : ℕ × ℕ → Bool × (ℕ × ℕ)
checked s = (true, (s.0 + 1, s.1))

-- The overload on vectors of vectors of `uint8_t`, at an array that holds a negative number.
abbrev unread : (t : CppType) → Carrier json_lib t
unread Types.bool = true
unread Types.double = pos 0
unread Types.float = pos 0
unread Types.string = []
unread Types.uint64 = 0
unread Types.int64 = pos 0
unread Types.uint32 = 0
unread Types.int32 = pos 0
unread Types.uint16 = 0
unread Types.int16 = pos 0
unread Types.uint8 = 0
unread Types.int8 = pos 0
unread (Types.vector t) = []
unread (Types.map t) = []

abbrev nested : Json
nested = array (cons (array (cons (integer (negsuc 4)) nil)) nil)

-- The array under a name.
abbrev holder : Json
holder = object (member (97 ∷ []) nested no_member)

parse-has_type_example :
    (Types.parse json_lib unread (Types.vector (Types.vector Types.uint8)) holder (97 ∷ []) []).0
    ≡ at_field json_lib
        (has_type json_lib (Types.vector (Types.vector Types.uint8)))
        (first_member (97 ∷ []) (json_lib.members holder))
parse-has_type_example =
    parse-has_type json_lib unread (Types.vector (Types.vector Types.uint8)) holder (97 ∷ []) []
      (inr refl)

abbrev bytes : List (List ℕ)
bytes = (5 ∷ 255 ∷ []) ∷ [] ∷ []

parse-serialize_example :
    Types.parse json_lib unread
      (Types.vector (Types.vector Types.uint8))
      (Types.serialize json_lib
        (Types.vector (Types.vector Types.uint8))
        (natural 3)
        none
        bytes
        false)
      []
      []
    ≡ (true, bytes)
parse-serialize_example =
    parse-serialize json_lib unread (Types.vector (Types.vector Types.uint8)) bytes [] (natural 3)
      ((omega arith, (omega arith, tt)), (tt, tt))
