-- ===== src/Serialize/Text.antt =====
-- The entry points of cpp_lib/serialize/json.h for texts and files. `parse_text` and `write_text`
-- are rapidjson's parser, none for a parse error, and its two writers.
pub mod RoundTrip
use cpp_lib.Prelude.{
  ◌*◌, Bool, true, false, not, leb, Option, none, some, List, [], ◌∷◌, length, if◌then◌else◌,
}
use cpp_lib.Serialize.Integers.{ℤ, pos, negsuc}
use cpp_lib.Serialize.Write.{is_zero}
use cpp_lib.Serialize.Rapidjson.{Bytes, Rapidjson}

module _ (R : Rapidjson) {A : Type 0} (parse : R.Value → Bytes → A → Bool × A)
    (parse_text : Bytes → Option R.Value) where
  unfoldable pub parse_from_json_string : Bytes → A → Bool × A
  parse_from_json_string content v = elim (parse_text content) [
    | none ↦ (false, v)
    | some d ↦ parse d [] v
  ]

  -- The content of the file is `none` if `fopen` fails; `allocated` says whether `malloc` succeeds.
  unfoldable pub parse_from_json_file : Bool → Option Bytes → A → Bool × A
  parse_from_json_file allocated file v = elim file [
    | none ↦ (false, v)
    | some content ↦
        if leb (100 * 1024 * 1024) (length content)
        then (false, v)
        else if not allocated
        then (false, v)
        else parse_from_json_string content v
  ]

module _ (R : Rapidjson) {A : Type 0} (serialize : R.Value → Option Bytes → A → Bool → R.Value)
    (write_text : Bool → R.Value → Bytes) where
  unfoldable pub write_to_json_string : A → Bool → Bool → ℤ × Bytes
  write_to_json_string v pretty ignore_default =
      (pos 0, write_text pretty (serialize R.new_object none v ignore_default))

  -- The result, and the file if `fopen` makes it; `fwrite` writes the whole text.
  unfoldable pub write_to_json_file : Bool → A → Bool → Bool → ℤ × Option Bytes
  write_to_json_file opened v pretty ignore_default =
      let (ret, content) = write_to_json_string v pretty ignore_default in
      if not (is_zero ret)
      then (ret, none)
      else if opened
      then (pos 0, some content)
      else (negsuc 0, none)
