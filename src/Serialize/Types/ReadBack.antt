-- ===== src/Serialize/Types/ReadBack.antt =====
-- What `Serialize` of cpp_lib/serialize/json.h has written, `Parse` reads back, at any depth of
-- vectors.
use mathlib.Core.List.{append-nil, append_assoc}
use cpp_lib.Prelude.{
  ℕ, ◌<◌, ◌^◌, ◌≡◌, refl, ap, ◌∙◌, sym, true, false, Option, none, some, List, [], ◌∷◌, ◌++◌, All,
  ltb, arith,
}
use native.Mathlib.Nat.{mod-eq_of_lt}
use cpp_lib.Serialize.Integers.{ℤ, pos}
use cpp_lib.Serialize.Rapidjson.{Bytes, Rapidjson}
use cpp_lib.Serialize.Parse.{
  get_json_filed_value, parse_scalar, parse_double, parse_float, parse_string, parse_bool,
  parse_uint64, parse_int64, parse_signed, parse_int32, parse_int16, parse_int8, parse_uint32,
  parse_uint16, parse_uint8, parse_elements, parse_container, parse_vector,
}
use cpp_lib.Serialize.Write.{
  add_json_member, serialize_double, serialize_float, serialize_string, serialize_bool,
  serialize_uint64, serialize_int64, serialize_signed, serialize_unsigned, serialize_uint32,
  serialize_int32, serialize_uint16, serialize_int16, serialize_uint8, serialize_int8,
  serialize_vector, serialize_elements,
}
use cpp_lib.Serialize.Ranges.{fits, parse_signed-fits}
use cpp_lib.Serialize.RoundTrip.{read_unsigned}
use cpp_lib.Serialize.Types.{
  CppType, bool, double, float, string, uint64, int64, uint32, int32, uint16, int16, uint8, int8,
  vector, map, Carrier, parse, serialize,
}

module _ (R : Rapidjson) where
  -- A value of the type, with its numbers in their ranges. Maps are left out.
  abbrev pub InRange : (t : CppType) → Carrier R t → Type 0
  InRange bool v = Unit
  InRange double v = Unit
  InRange float v = Unit
  InRange string v = Unit
  InRange uint64 v = Unit
  InRange int64 v = Unit
  InRange uint32 v = v < 2 ^ 32
  InRange int32 v = fits (2 ^ 31) v ≡ true
  InRange uint16 v = v < 2 ^ 16
  InRange int16 v = fits (2 ^ 15) v ≡ true
  InRange uint8 v = v < 2 ^ 8
  InRange int8 v = fits (2 ^ 7) v ≡ true
  InRange (vector t) v = All (InRange t) v
  InRange (map t) v = ⊥

  -- The value that `Serialize` adds.
  value : (t : CppType) → Carrier R t → R.Value
  value bool v = R.from_bool v
  value double v = R.from_double v
  value float v = R.from_double (R.widen v)
  value string v = R.from_string v
  value uint64 v = R.from_uint64 v
  value int64 v = R.from_int64 v
  value uint32 v = R.from_uint64 v
  value int32 v = R.from_int64 v
  value uint16 v = R.from_uint64 v
  value int16 v = R.from_int64 v
  value uint8 v = R.from_uint64 v
  value int8 v = R.from_int64 v
  value (vector t) v = serialize_elements R (serialize R t) R.new_array v
  value (map t) v = R.new_object

  serialize-value :
      (t : CppType) (json : R.Value) (name : Option Bytes) (v : Carrier R t)
      → InRange t v
      → serialize R t json name v false ≡ add_json_member R json name (value t v)
  unfolding value serialize serialize_bool serialize_double serialize_float serialize_string
      serialize_uint64 serialize_int64 serialize_uint32 serialize_int32 serialize_uint16
      serialize_int16 serialize_uint8 serialize_int8 serialize_signed serialize_unsigned
      serialize_vector
  serialize-value bool json name v h = refl
  serialize-value double json name v h = refl
  serialize-value float json name v h = refl
  serialize-value string json name v h = refl
  serialize-value uint64 json name v h = refl
  serialize-value int64 json name v h = refl
  serialize-value uint32 json name v h = refl
  serialize-value int32 json name v h = refl
  serialize-value uint16 json name v h = refl
  serialize-value int16 json name v h = refl
  serialize-value uint8 json name v h = refl
  serialize-value int8 json name v h = refl
  serialize-value (vector t) json name v h = refl
  serialize-value (map t) json name v h = absurd h

  values : (t : CppType) → List (Carrier R t) → List R.Value
  values t [] = []
  values t (x ∷ xs) = value t x ∷ values t xs

  pushed :
      (t : CppType) (a : R.Value) (x : Carrier R t)
      → InRange t x
      → serialize R t a (some []) x false ≡ R.push_back a (value t x)
  unfolding add_json_member
  pushed t a x h = serialize-value t a (some []) x h

  serialize_elements-values :
      (t : CppType) (a : R.Value) (xs : List (Carrier R t))
      → All (InRange t) xs
      → R.is_array a ≡ true
      → (R.is_array (serialize_elements R (serialize R t) a xs) ≡ true)
        × (R.elements (serialize_elements R (serialize R t) a xs) ≡ R.elements a ++ values t xs)
  unfolding serialize_elements values
  serialize_elements-values t a [] h r = (r, sym (append-nil (R.elements a)))
  serialize_elements-values t a (x ∷ xs) h r =
      let v = value t x in
      let one : serialize R t a (some []) x false ≡ R.push_back a v = pushed t a x h.0 in
      let step = ap (λ (b : R.Value). serialize_elements R (serialize R t) b xs) one in
      let rest =
        serialize_elements-values t (R.push_back a v) xs h.1 (R.is_array-push_back a v r) in
      (
        ap R.is_array step ∙ rest.0,
        ap R.elements step
            ∙ rest.1
            ∙ ap (λ u. u ++ values t xs) (R.elements-push_back a v r)
            ∙ append_assoc (R.elements a) (v ∷ []) (values t xs),
      )

  read_int64 : (z : ℤ) → parse_int64 R (R.from_int64 z) [] (pos 0) ≡ (true, z)
  unfolding parse_int64 parse_scalar get_json_filed_value
  read_int64 z = rw (R.is_int64-from_int64 z, R.get_int64-from_int64 z) refl

  read_signed :
      (half : ℕ) (z w : ℤ)
      → 0 < half
      → fits half z ≡ true
      → parse_signed R half (R.from_int64 z) [] w ≡ (true, z)
  read_signed half z w p h =
      parse_signed-fits R half (R.from_int64 z) [] w z p (read_int64 z) ∙ rw h refl

  -- A byte is written as an unsigned number and read as a signed one.
  read_byte : (n w : ℕ) → n < 2 ^ 8 → parse_uint8 R (R.from_uint64 n) [] w ≡ (true, n)
  unfolding parse_uint8 parse_int64 parse_scalar get_json_filed_value
  read_byte n w h =
      let small : n < 2 ^ 63 = omega (arith, h) in
      let fits : ltb 255 n ≡ false = ground arith in
      rw (R.is_int64-from_uint64 n small, R.get_int64-from_uint64 n small, fits)
        (ap (λ k. (true, k)) (mod-eq_of_lt h))

  module _ (blank : (t : CppType) → Carrier R t) where
    parse_elements-values :
        (t : CppType) (xs acc : List (Carrier R t))
        → ((x w : Carrier R t) → InRange t x → parse R blank t (value t x) [] w ≡ (true, x))
        → All (InRange t) xs
        → parse_elements R (parse R blank t) (blank t) (λ u x. u ++ (x ∷ [])) (values t xs) acc
          ≡ (true, acc ++ xs)
    unfolding parse_elements values
    parse_elements-values t [] acc back h = ap (λ u. (true, u)) (sym (append-nil acc))
    parse_elements-values t (x ∷ xs) acc back h = rw (back x (blank t) h.0) (
        parse_elements-values t xs (acc ++ (x ∷ [])) back h.1
        ∙ ap (λ u. (true, u)) (append_assoc acc (x ∷ []) xs))

    read_back :
        (t : CppType) (v w : Carrier R t)
        → InRange t v
        → parse R blank t (value t v) [] w ≡ (true, v)
    unfolding value parse parse_bool parse_double parse_float parse_string parse_scalar parse_uint32
        parse_int32 parse_uint16 parse_int16 parse_int8 parse_uint64 parse_int64 parse_vector
        parse_container get_json_filed_value
    read_back bool v w h = rw (R.is_bool-from_bool v, R.get_bool-from_bool v) refl
    read_back double v w h = rw (R.is_number-from_double v, R.get_double-from_double v) refl
    read_back float v w h = rw (R.is_number-from_double (R.widen v), R.get_float-from_double v) refl
    read_back string v w h = rw (R.is_string-from_string v, R.get_string-from_string v) refl
    read_back uint64 v w h = rw (R.is_uint64-from_uint64 v, R.get_uint64-from_uint64 v) refl
    read_back int64 v w h = rw (R.is_int64-from_int64 v, R.get_int64-from_int64 v) refl
    read_back uint32 v w h = read_unsigned R (2 ^ 32) v w h
    read_back int32 v w h = read_signed (2 ^ 31) v w (omega arith) h
    read_back uint16 v w h = read_unsigned R (2 ^ 16) v w h
    read_back int16 v w h = read_signed (2 ^ 15) v w (omega arith) h
    read_back uint8 v w h = read_byte v w h
    read_back int8 v w h = read_signed (2 ^ 7) v w (omega arith) h
    read_back (vector t) v w h =
        let whole = serialize_elements-values t R.new_array v h R.is_array-new_array in
        let content : R.elements (value (vector t) v) ≡ values t v =
          whole.1 ∙ ap (λ u. u ++ values t v) R.elements-new_array in
        rw (parse_vector, parse_container, whole.0, content)
          (parse_elements-values t v [] (λ x u r. read_back t x u r) h)
    read_back (map t) v w h = absurd h

    -- For every type made of the scalar types by vectors at any depth, and every value of it
    -- whose numbers are in their ranges, `Parse` of what `Serialize` makes of the value under no
    -- name, defaults not ignored, returns true and gives the value, whatever the variable held.
    pub parse-serialize :
        (t : CppType) (v w : Carrier R t) (json : R.Value)
        → InRange t v
        → parse R blank t (serialize R t json none v false) [] w ≡ (true, v)
    unfolding add_json_member
    parse-serialize t v w json h =
        ap (λ (x : R.Value). parse R blank t x [] w) (serialize-value t json none v h)
        ∙ read_back t v w h
