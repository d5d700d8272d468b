-- ===== src/Serialize/Types/Accepts.antt =====
-- Which values the `Parse` overloads of cpp_lib/serialize/json.h accept, for every type.
use cpp_lib.Prelude.{
  ℕ, ◌-◌, ◌^◌, ◌≡◌, ◌∙◌, ◌⊎◌, ap, refl, Bool, true, some, if◌then◌else◌, arith, not, ◌&&◌, ◌||◌,
  Bool-cases, inl, inr, Option-cases, List, [], ◌∷◌, ◌++◌, ltb,
}
use cpp_lib.Serialize.Integers.{ℤ, above, below}
use cpp_lib.Serialize.Rapidjson.{Bytes, Rapidjson, c_str, first_member}
use cpp_lib.Serialize.Parse.{
  get_json_filed_value, parse_scalar, parse_double, parse_float, parse_string, parse_bool,
  parse_uint64, parse_int64, parse_signed, parse_int32, parse_int16, parse_int8, parse_unsigned,
  parse_uint32, parse_uint16, parse_uint8, parse_elements, parse_container, parse_vector,
  parse_members, parse_map,
}
use cpp_lib.Serialize.Write.{is_empty}
use cpp_lib.Serialize.Types.{
  CppType, bool, double, float, string, uint64, int64, uint32, int32, uint16, int16, uint8, int8,
  vector, map, Carrier, parse, every, every_member, is_natural, natural, is_integer, integer,
  has_type, at_field,
}

module _ (R : Rapidjson) (blank : (t : CppType) → Carrier R t) where
  scalar :
      {A : Type 0} (is : R.Value → Bool) (get : R.Value → A) (json : R.Value) (name : Bytes) (v : A)
      → (parse_scalar R is get json name v).0 ≡ at_field R is (get_json_filed_value R json name)
  unfolding parse_scalar
  scalar is get json name v = elim (Option-cases (get_json_filed_value R json name)) [
    | inl out ↦ rw (out, parse_scalar) refl
    | inr (x, at) ↦ elim (Bool-cases (is x)) [
      | inl y ↦ rw (at, parse_scalar, y) refl
      | inr n ↦ rw (at, parse_scalar, n) refl
    ]
  ]

  unsigned :
      (m : ℕ) (json : R.Value) (name : Bytes) (v : ℕ)
      → (parse_unsigned R m json name v).0
        ≡ at_field R
            (λ x. is_natural R x && not (ltb (m - 1) (natural R x)))
            (get_json_filed_value R json name)
  unfolding parse_unsigned parse_uint64 parse_scalar
  unsigned m json name v = elim (Option-cases (get_json_filed_value R json name)) [
    | inl out ↦ rw (out, parse_unsigned, parse_uint64, parse_scalar) refl
    | inr (x, at) ↦ elim (Bool-cases (is_natural R x)) [
      | inl y ↦ elim (Bool-cases (ltb (m - 1) (natural R x))) [
        | inl over ↦ rw (at, parse_unsigned, parse_uint64, parse_scalar, y, over) refl
        | inr fits ↦ rw (at, parse_unsigned, parse_uint64, parse_scalar, y, fits) refl
      ]
      | inr n ↦ rw (at, parse_unsigned, parse_uint64, parse_scalar, n) refl
    ]
  ]

  signed :
      (half : ℕ) (json : R.Value) (name : Bytes) (v : ℤ)
      → (parse_signed R half json name v).0
        ≡ at_field R
            (λ x.
              is_integer R x && not (above (integer R x) (half - 1) || below (integer R x) half))
            (get_json_filed_value R json name)
  unfolding parse_signed parse_int64 parse_scalar
  signed half json name v = elim (Option-cases (get_json_filed_value R json name)) [
    | inl out ↦ rw (out, parse_signed, parse_int64, parse_scalar) refl
    | inr (x, at) ↦ elim (Bool-cases (is_integer R x)) [
      | inl y ↦ elim (Bool-cases (above (integer R x) (half - 1) || below (integer R x) half)) [
        | inl over ↦ rw (at, parse_signed, parse_int64, parse_scalar, y, over) refl
        | inr fits ↦ rw (at, parse_signed, parse_int64, parse_scalar, y, fits) refl
      ]
      | inr n ↦ rw (at, parse_signed, parse_int64, parse_scalar, n) refl
    ]
  ]

  byte :
      (json : R.Value) (name : Bytes) (v : ℕ)
      → (parse_uint8 R json name v).0
        ≡ at_field R
            (λ x. is_integer R x && not (above (integer R x) (2 ^ 8 - 1)))
            (get_json_filed_value R json name)
  unfolding parse_uint8 parse_int64 parse_scalar
  byte json name v = elim (Option-cases (get_json_filed_value R json name)) [
    | inl out ↦ rw (out, parse_uint8, parse_int64, parse_scalar) refl
    | inr (x, at) ↦ elim (Bool-cases (is_integer R x)) [
      | inl y ↦ elim (Bool-cases (above (integer R x) (2 ^ 8 - 1))) [
        | inl over ↦ rw (at, parse_uint8, parse_int64, parse_scalar, y, over) refl
        | inr fits ↦ rw (at, parse_uint8, parse_int64, parse_scalar, y, fits) refl
      ]
      | inr n ↦ rw (at, parse_uint8, parse_int64, parse_scalar, n) refl
    ]
  ]

  elements :
      {A : Type 0} (p : R.Value → Bytes → A → Bool × A) (b : A) (is : R.Value → Bool)
      (xs : List R.Value) (v : List A)
      → ((x : R.Value) → (p x [] b).0 ≡ is x)
      → (parse_elements R p b (λ u x. u ++ (x ∷ [])) xs v).0 ≡ every R is xs
  unfolding parse_elements
  elements p b is [] v h = refl
  elements p b is (x ∷ xs) v h = elim (Bool-cases (is x)) [
    | inl y ↦ rw (h x, y) (elements p b is xs (v ++ ((p x [] b).1 ∷ [])) h)
    | inr n ↦ rw (h x, n) refl
  ]

  members :
      {A : Type 0} (p : R.Value → Bytes → A → Bool × A) (b : A) (is : R.Value → Bool)
      (xs : List (Bytes × R.Value)) (v : List (Bytes × A))
      → ((x : R.Value) → (p x [] b).0 ≡ is x)
      → (parse_members R p b xs v).0 ≡ every_member R is xs
  unfolding parse_members
  members p b is [] v h = refl
  members p b is ((k, x) ∷ xs) v h = elim (Bool-cases (is x)) [
    | inl y ↦ rw (h x, y) (members p b is xs ((c_str k, (p x [] b).1) ∷ v) h)
    | inr n ↦ rw (h x, n) refl
  ]

  vector_of :
      {A : Type 0} (p : R.Value → Bytes → A → Bool × A) (b : A) (is : R.Value → Bool)
      (json : R.Value) (name : Bytes) (v : List A)
      → ((x : R.Value) → (p x [] b).0 ≡ is x)
      → (parse_vector R p b json name v).0
        ≡ at_field R
            (λ x. R.is_array x && every R is (R.elements x))
            (get_json_filed_value R json name)
  unfolding parse_vector parse_container
  vector_of p b is json name v h = elim (Option-cases (get_json_filed_value R json name)) [
    | inl out ↦ rw (out, parse_vector, parse_container) refl
    | inr (x, at) ↦ elim (Bool-cases (R.is_array x)) [
      | inl y ↦ rw (at, parse_vector, parse_container, y) (elements p b is (R.elements x) [] h)
      | inr n ↦ rw (at, parse_vector, parse_container, n) refl
    ]
  ]

  map_of :
      {A : Type 0} (p : R.Value → Bytes → A → Bool × A) (b : A) (is : R.Value → Bool)
      (json : R.Value) (name : Bytes) (v : List (Bytes × A))
      → ((x : R.Value) → (p x [] b).0 ≡ is x)
      → (parse_map R p b json name v).0
        ≡ at_field R
            (λ x. R.is_object x && every_member R is (R.members x))
            (get_json_filed_value R json name)
  unfolding parse_map
  map_of p b is json name v h = elim (Option-cases (get_json_filed_value R json name)) [
    | inl out ↦ rw (out, parse_map) refl
    | inr (x, at) ↦ elim (Bool-cases (R.is_object x)) [
      | inl y ↦ rw (at, parse_map, y) (members p b is (R.members x) [] h)
      | inr n ↦ rw (at, parse_map, n) refl
    ]
  ]

  parse-value :
      (t : CppType) (json : R.Value) (name : Bytes) (v : Carrier R t)
      → (parse R blank t json name v).0
        ≡ at_field R (has_type R t) (get_json_filed_value R json name)
  unfolding parse parse_bool parse_double parse_float parse_string parse_uint64 parse_int64
      parse_uint32 parse_int32 parse_uint16 parse_int16 parse_int8 get_json_filed_value
  parse-value bool json name v = scalar R.is_bool R.get_bool json name v
  parse-value double json name v = scalar R.is_number R.get_double json name v
  parse-value float json name v = scalar R.is_number R.get_float json name v
  parse-value string json name v = scalar R.is_string R.get_string json name v
  parse-value uint64 json name v = scalar _ _ json name v
  parse-value int64 json name v = scalar _ _ json name v
  parse-value uint32 json name v = unsigned (2 ^ 32) json name v
  parse-value int32 json name v = signed (2 ^ 31) json name v
  parse-value uint16 json name v = unsigned (2 ^ 16) json name v
  parse-value int16 json name v = signed (2 ^ 15) json name v
  parse-value uint8 json name v = byte json name v
  parse-value int8 json name v = signed (2 ^ 7) json name v
  parse-value (vector t) json name v =
      vector_of (parse R blank t) (blank t) (has_type R t) json name v
        (λ x. parse-value t x [] (blank t))
  parse-value (map t) json name v =
      map_of (parse R blank t) (blank t) (has_type R t) json name v
        (λ x. parse-value t x [] (blank t))

  -- For every type of variable that is made of the scalar types by vectors and maps at any depth,
  -- `Parse` with the empty name, or from a JSON object, returns true exactly if the value itself,
  -- for the empty name, or the first member of the object under the name is there and has the
  -- type: it is of the kind that the overload asks for, in the range of the type (for `uint8_t`
  -- the upper bound alone), and its elements or members have the type of the elements.
  pub parse-has_type :
      (t : CppType) (json : R.Value) (name : Bytes) (v : Carrier R t)
      → (name ≡ []) ⊎ (R.is_object json ≡ true)
      → (parse R blank t json name v).0
        ≡ at_field R
            (has_type R t)
            (if is_empty name then some json else first_member name (R.members json))
  unfolding get_json_filed_value
  parse-has_type t json [] v h = parse-value t json [] v
  parse-has_type t json (c ∷ cs) v (inl e) = absurd (ground (arith, e))
  parse-has_type t json (c ∷ cs) v (inr h) =
      parse-value t json (c ∷ cs) v
      ∙ ap (at_field R (has_type R t)) (R.find_member-members json (c ∷ cs) h)
