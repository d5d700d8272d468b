-- ===== src/Serialize/Text/RoundTrip.antt =====
-- A struct that is written to a file is read back.
use mathlib.Core.Path.{subst}
use cpp_lib.Prelude.{
  ◌*◌, ◌<◌, ◌≡◌, ◌≢◌, refl, ap, ◌∙◌, sym, Bool, true, false, Option, none, some, List, [], ◌∷◌, All,
  length, leb, arith,
}
use cpp_lib.Serialize.Integers.{pos}
use cpp_lib.Serialize.Rapidjson.{Bytes, Rapidjson}
use cpp_lib.Serialize.Parse.{get_json_filed_value}
use cpp_lib.Serialize.Write.{add_json_member}
use cpp_lib.Serialize.Fields.{
  Field, get_field_name, for_each, json_parse_json, prase_from_json, parse_struct,
  json_serialize_json, write_to_json, serialize_struct,
}
use cpp_lib.Serialize.Text.{
  parse_from_json_string, parse_from_json_file, write_to_json_string, write_to_json_file,
}

module _ (R : Rapidjson) {S : Type 0} (mapping : List (Bytes × Bytes)) (s : S) where
  -- A field of `s` whose `Serialize` adds one value, which its `Parse` reads back into a struct.
  pub record Member : Type 0 where
    pub field : Field R S
    pub value : R.Value
    pub copy : S → S
    pub wrote :
        (json : R.Value) (name : Bytes)
        → field.serialize json (some name) s false ≡ add_json_member R json (some name) value
    pub read :
        (json : R.Value) (name : Bytes) (t : S)
        → get_json_filed_value R json name ≡ some value
        → field.parse json name t ≡ (true, copy t)

  abbrev pub name_of : Member → Bytes
  name_of m = get_field_name mapping (m.field.name)

  abbrev pub fields_of : List Member → List (Field R S)
  fields_of [] = []
  fields_of (m ∷ ms) = m.field ∷ fields_of ms

  -- The names are not empty, and no two are the same.
  abbrev pub DistinctNames : List Member → Type 0
  DistinctNames [] = Unit
  DistinctNames (m ∷ ms) = (name_of m ≢ []) × All (λ n. name_of m ≢ name_of n) ms × DistinctNames ms

  -- The fields of `s` copied one after the other.
  abbrev pub copies : List Member → S → S
  copies [] t = t
  copies (m ∷ ms) t = copies ms (m.copy t)

  abbrev written : List Member → R.Value → R.Value
  written ms o = for_each (json_serialize_json R mapping s false) (fields_of ms) o

  add-nonempty :
      (o v : R.Value) (k : Bytes) → k ≢ [] → add_json_member R o (some k) v ≡ R.add_member o k v
  unfolding add_json_member
  add-nonempty o v [] h = absurd (h refl)
  add-nonempty o v (c ∷ cs) h = refl

  get-nonempty : (o : R.Value) (k : Bytes) → k ≢ [] → get_json_filed_value R o k ≡ R.find_member o k
  unfolding get_json_filed_value
  get-nonempty o [] h = absurd (h refl)
  get-nonempty o (c ∷ cs) h = refl

  written-cons :
      (m : Member) (ms : List Member) (o : R.Value)
      → name_of m ≢ []
      → written (m ∷ ms) o ≡ written ms (R.add_member o (name_of m) m.value)
  unfolding for_each json_serialize_json
  written-cons m ms o h =
      ap (written ms) (m.wrote o (name_of m) ∙ add-nonempty o m.value (name_of m) h)

  written-find :
      (ms : List Member) (o : R.Value) (k : Bytes)
      → R.is_object o ≡ true
      → DistinctNames ms
      → All (λ m. k ≢ name_of m) ms
      → R.find_member (written ms o) k ≡ R.find_member o k
  unfolding for_each
  written-find [] o k h d a = refl
  written-find (m ∷ ms) o k h d a =
      ap (λ x. R.find_member x k) (written-cons m ms o d.0)
      ∙ written-find ms (R.add_member o (name_of m) m.value) k
          (R.is_object-add_member o m.value (name_of m) h) d.2 a.1
      ∙ R.find_member-add_member_ne o m.value (name_of m) k h (λ e. a.0 (sym e))

  written-is_object :
      (ms : List Member) (o : R.Value)
      → R.is_object o ≡ true
      → DistinctNames ms
      → R.is_object (written ms o) ≡ true
  unfolding for_each
  written-is_object [] o h d = h
  written-is_object (m ∷ ms) o h d =
      ap R.is_object (written-cons m ms o d.0)
      ∙ written-is_object ms (R.add_member o (name_of m) m.value)
          (R.is_object-add_member o m.value (name_of m) h) d.2

  Found : R.Value → Member → Type 0
  Found json m = get_json_filed_value R json (name_of m) ≡ some m.value

  absent-rest :
      (m : Member) (ms : List Member) (o : R.Value)
      → R.is_object o ≡ true
      → All (λ n. name_of m ≢ name_of n) ms
      → All (λ n. R.find_member o (name_of n) ≡ none) ms
      → All (λ n. R.find_member (R.add_member o (name_of m) m.value) (name_of n) ≡ none) ms
  absent-rest m [] o h d a = tt
  absent-rest m (n ∷ ns) o h d a = (
    R.find_member-add_member_ne o m.value (name_of m) (name_of n) h d.0 ∙ a.0,
    absent-rest m ns o h d.1 a.1,
  )

  written-Found :
      (ms : List Member) (o : R.Value)
      → R.is_object o ≡ true
      → DistinctNames ms
      → All (λ m. R.find_member o (name_of m) ≡ none) ms
      → All (Found (written ms o)) ms
  unfolding Found
  written-Found [] o h d a = tt
  written-Found (m ∷ ms) o h d a =
      let next = R.add_member o (name_of m) m.value in
      let object = R.is_object-add_member o m.value (name_of m) h in
      let same = written-cons m ms o d.0 in
      let rest = written-Found ms next object d.2 (absent-rest m ms o h d.1 a.1) in
      (
        get-nonempty (written (m ∷ ms) o) (name_of m) d.0
            ∙ ap (λ x. R.find_member x (name_of m)) same
            ∙ written-find ms next (name_of m) object d.2 d.1
            ∙ R.find_member-add_member o m.value (name_of m) h a.0,
        subst (λ x. All (Found x) ms) (sym same) rest,
      )

  parsed-copies :
      (json : R.Value) (ms : List Member) (t : S)
      → All (Found json) ms
      → for_each (json_parse_json R mapping json) (fields_of ms) t ≡ copies ms t
  unfolding Found for_each json_parse_json
  parsed-copies json [] t h = refl
  parsed-copies json (m ∷ ms) t h =
      ap (λ u. for_each (json_parse_json R mapping json) (fields_of ms) u.1)
        (m.read json (name_of m) t h.0)
      ∙ parsed-copies json ms (m.copy t) h.1

  All-absent : (ms : List Member) → All (λ n. R.find_member R.new_object (name_of n) ≡ none) ms
  All-absent [] = tt
  All-absent (m ∷ ms) = (R.find_member-new_object (name_of m), All-absent ms)

  document-written :
      (ms : List Member) (json : R.Value)
      → serialize_struct R mapping (fields_of ms) json none s false ≡ written ms R.new_object
  unfolding serialize_struct write_to_json add_json_member
  document-written ms json = refl

  pub parse_struct-serialize_struct :
      (ms : List Member) (json : R.Value) (t : S)
      → DistinctNames ms
      → parse_struct R mapping
          (fields_of ms)
          (serialize_struct R mapping (fields_of ms) json none s false)
          []
          t
        ≡ (true, copies ms t)
  unfolding parse_struct prase_from_json get_json_filed_value serialize_struct write_to_json
      add_json_member
  parse_struct-serialize_struct ms json t d =
      let doc = written ms R.new_object in
      let object = written-is_object ms R.new_object R.is_object-new_object d in
      let found = written-Found ms R.new_object R.is_object-new_object d (All-absent ms) in
      rw (parse_struct, object) (ap (λ u. (true, u)) (parsed-copies doc ms t found))

  module _ (parse_text : Bytes → Option R.Value) (write_text : Bool → R.Value → Bytes) where
    -- A struct whose fields have different names, none of them empty, each adding one value that
    -- its `Parse` reads back, is written to a file with return code 0. If rapidjson reads its
    -- text back to the document, the text is shorter than 100 MiB and memory can be had,
    -- `ParseFromJsonFile` returns true and makes of a struct of which the fields determine the
    -- written one that same struct.
    pub parse_from_json_file-write_to_json_file :
        (ms : List Member) (pretty : Bool) (t : S)
        → DistinctNames ms
        → let doc = serialize_struct R mapping (fields_of ms) R.new_object none s false in
          parse_text (write_text pretty doc) ≡ some doc
          → length (write_text pretty doc) < 100 * 1024 * 1024
          → copies ms t ≡ s
          → (file : Option Bytes) × (write_to_json_file R
                (serialize_struct R mapping (fields_of ms))
                write_text
                true
                s
                pretty
                false
              ≡ (pos 0, file))
            × (parse_from_json_file R (parse_struct R mapping (fields_of ms)) parse_text true file t
                ≡ (true, s))
    unfolding write_to_json_file write_to_json_string parse_from_json_file parse_from_json_string
    parse_from_json_file-write_to_json_file ms pretty t d printed small whole =
        let doc = serialize_struct R mapping (fields_of ms) R.new_object none s false in
        let fits : leb (100 * 1024 * 1024) (length (write_text pretty doc)) ≡ false =
          ground (arith, small) in
        (
          some (write_text pretty doc),
          refl,
          rw (parse_from_json_file, parse_from_json_string, fits, printed)
              (parse_struct-serialize_struct ms R.new_object t d ∙ ap (λ u. (true, u)) whole),
        )
