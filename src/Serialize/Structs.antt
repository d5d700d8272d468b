-- ===== src/Serialize/Structs.antt =====
-- What `PraseFromJson` makes of fields that do not parse.
use cpp_lib.Prelude.{◌≡◌, refl, ap, ◌∙◌, true, false, some, List, [], ◌∷◌, ◌++◌, All}
use cpp_lib.Serialize.Rapidjson.{Bytes, Rapidjson}
use cpp_lib.Serialize.Parse.{get_json_filed_value}
use cpp_lib.Serialize.Fields.{
  Field, get_field_name, for_each, json_parse_json, prase_from_json, parse_struct,
}

module _ (R : Rapidjson) {S : Type 0} (mapping : List (Bytes × Bytes)) (json : R.Value) where
  -- `Parse` on the field fails, and leaves the struct.
  abbrev pub Fails : S → Field R S → Type 0
  Fails s f = f.parse json (get_field_name mapping f.name) s ≡ (false, s)

  for_each-append :
      {A : Type 0} (what : A → S → S) (xs ys : List A) (s : S)
      → for_each what (xs ++ ys) s ≡ for_each what ys (for_each what xs s)
  unfolding for_each
  for_each-append what [] ys s = refl
  for_each-append what (x ∷ xs) ys s = for_each-append what xs ys (what x s)

  for_each-failing :
      (s : S) (fields : List (Field R S))
      → All (Fails s) fields
      → for_each (json_parse_json R mapping json) fields s ≡ s
  unfolding for_each json_parse_json
  for_each-failing s [] h = refl
  for_each-failing s (f ∷ fs) h =
      let rest = for_each-failing s fs h.1 in
      ap (λ u. for_each (json_parse_json R mapping json) fs (u.1)) h.0 ∙ rest

  -- `Parse` of an object into a struct of which one field parses, while those before and after it
  -- fail and leave the struct, returns true, and that field alone is written.
  pub parse_struct-one_field :
      (whole : R.Value) (name : Bytes) (s t : S) (before after : List (Field R S)) (f : Field R S)
      → get_json_filed_value R whole name ≡ some json
      → R.is_object json ≡ true
      → All (Fails s) before
      → f.parse json (get_field_name mapping f.name) s ≡ (true, t)
      → All (Fails t) after
      → parse_struct R mapping (before ++ (f ∷ after)) whole name s ≡ (true, t)
  unfolding parse_struct prase_from_json for_each json_parse_json
  parse_struct-one_field whole name s t before after f e o b p a =
      let what = json_parse_json R {S = S} mapping json in
      let rest : for_each what (before ++ (f ∷ after)) s ≡ t =
        for_each-append what before (f ∷ after) s
        ∙ ap (for_each what (f ∷ after)) (for_each-failing s before b)
        ∙ ap (λ u. for_each what after u.1) p
        ∙ for_each-failing t after a in
      rw (parse_struct, e, o) (ap (λ u. (true, u)) rest)
