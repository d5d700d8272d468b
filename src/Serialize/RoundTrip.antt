-- ===== src/Serialize/RoundTrip.antt =====
-- The `Parse` and `Serialize` overloads on sequences: what a partly readable array leaves, and
-- that a written vector is read back.
use mathlib.Core.List.{append-nil, append_assoc}
use cpp_lib.Prelude.{
  ℕ, ◌<◌, ◌≡◌, refl, ap, sym, ◌∙◌, Bool, true, false, ◌&&◌, Bool-cases, inl, inr, none, some, List,
  [], ◌∷◌, ◌++◌, All, lt→ltb, if◌then◌else◌, arith,
}
use cpp_lib.Serialize.Rapidjson.{Bytes, Rapidjson}
use cpp_lib.Serialize.Parse.{
  get_json_filed_value, parse_scalar, parse_uint64, parse_unsigned, parse_elements, parse_container,
  parse_vector,
}
use cpp_lib.Serialize.Write.{
  add_json_member, serialize_uint64, serialize_unsigned, serialize_elements, serialize_vector,
}
use cpp_lib.Serialize.Ranges.{parse_unsigned-fits}

module _ (R : Rapidjson) {A : Type 0} (parse : R.Value → Bytes → A → Bool × A) (blank : A) where
  -- Every element parses.
  abbrev pub all_parse : List R.Value → Bool
  all_parse [] = true
  all_parse (x ∷ xs) = (parse x [] blank).0 && all_parse xs

  -- The elements before the first that does not parse.
  abbrev pub parsed_prefix : List R.Value → List A
  parsed_prefix [] = []
  parsed_prefix (x ∷ xs) =
      if (parse x [] blank).0 then (parse x [] blank).1 ∷ parsed_prefix xs else []

  parse_elements-prefix :
      (xs : List R.Value) (v : List A)
      → parse_elements R parse blank (λ u x. u ++ (x ∷ [])) xs v
        ≡ (all_parse xs, v ++ parsed_prefix xs)
  unfolding parse_elements
  parse_elements-prefix [] v = ap (λ u. (true, u)) (sym (append-nil v))
  parse_elements-prefix (x ∷ xs) v = elim (Bool-cases ((parse x [] blank).0)) [
    | inl y ↦ rw y (
        parse_elements-prefix xs (v ++ ((parse x [] blank).1 ∷ []))
        ∙ ap (λ u. (all_parse xs, u))
            (append_assoc v ((parse x [] blank).1 ∷ []) (parsed_prefix xs)))
    | inr n ↦ rw n (ap (λ u. (false, u)) (sym (append-nil v)))
  ]

  -- `Parse` of an array into a vector returns true exactly if every element parses, and leaves
  -- the elements before the first that does not parse.
  pub parse_vector-prefix :
      (json val : R.Value) (name : Bytes) (v : List A)
      → get_json_filed_value R json name ≡ some val
      → R.is_array val ≡ true
      → parse_vector R parse blank json name v
        ≡ (all_parse (R.elements val), parsed_prefix (R.elements val))
  unfolding parse_vector parse_container
  parse_vector-prefix json val name v e h =
      rw (parse_vector, parse_container, e, h) (parse_elements-prefix (R.elements val) [])

module _ (R : Rapidjson) (m : ℕ) where
  written :
      (a : R.Value) (n : ℕ)
      → serialize_unsigned R a (some []) n false ≡ R.push_back a (R.from_uint64 n)
  unfolding serialize_unsigned serialize_uint64 add_json_member
  written a n = refl

  -- What the loop of `Serialize` appends.
  abbrev values : List ℕ → List R.Value
  values [] = []
  values (n ∷ ns) = R.from_uint64 n ∷ values ns

  serialize_elements-values :
      (a : R.Value) (ns : List ℕ)
      → R.is_array a ≡ true
      → (R.is_array (serialize_elements R (serialize_unsigned R) a ns) ≡ true)
        × (R.elements (serialize_elements R (serialize_unsigned R) a ns)
            ≡ R.elements a ++ values ns)
  unfolding serialize_elements
  serialize_elements-values a [] h = (h, sym (append-nil (R.elements a)))
  serialize_elements-values a (n ∷ ns) h =
      let b = R.push_back a (R.from_uint64 n) in
      let rest = serialize_elements-values b ns (R.is_array-push_back a (R.from_uint64 n) h) in
      rw (written a n) (
        rest.0,
        rest.1
            ∙ ap (λ u. u ++ values ns) (R.elements-push_back a (R.from_uint64 n) h)
            ∙ append_assoc (R.elements a) (R.from_uint64 n ∷ []) (values ns),
      )

  read_uint64 : (n : ℕ) → parse_uint64 R (R.from_uint64 n) [] 0 ≡ (true, n)
  unfolding parse_uint64 parse_scalar get_json_filed_value
  read_uint64 n = rw (R.is_uint64-from_uint64 n, R.get_uint64-from_uint64 n) refl

  pub read_unsigned : (n b : ℕ) → n < m → parse_unsigned R m (R.from_uint64 n) [] b ≡ (true, n)
  read_unsigned n b h =
      parse_unsigned-fits R m (R.from_uint64 n) [] b n (omega (arith, h)) (read_uint64 n)
      ∙ rw (lt→ltb n m h) refl

  All-read :
      (ns : List ℕ) (b : ℕ)
      → All (λ n. n < m) ns
      → (all_parse R (parse_unsigned R m) b (values ns) ≡ true)
        × (parsed_prefix R (parse_unsigned R m) b (values ns) ≡ ns)
  All-read [] b h = (refl, refl)
  All-read (n ∷ ns) b h =
      let rest = All-read ns b h.1 in rw (read_unsigned n b h.0) (rest.0, ap (◌∷◌ n) rest.1)

  -- A vector of unsigned integers below `m` that `Serialize` has written is read back by `Parse`
  -- to the same vector, whatever the variable held and whether or not defaults are ignored.
  pub parse_vector-serialize_vector :
      (ns v : List ℕ) (b : ℕ) (json : R.Value) (ignore_default : Bool)
      → All (λ n. n < m) ns
      → parse_vector R
          (parse_unsigned R m)
          b
          (serialize_vector R (serialize_unsigned R) json none ns ignore_default)
          []
          v
        ≡ (true, ns)
  unfolding serialize_vector add_json_member get_json_filed_value
  parse_vector-serialize_vector ns v b json ignore h =
      let whole = serialize_elements-values R.new_array ns R.is_array-new_array in
      let array = serialize_elements R (serialize_unsigned R) R.new_array ns in
      let content : R.elements array ≡ values ns =
        whole.1 ∙ ap (λ u. u ++ values ns) R.elements-new_array in
      parse_vector-prefix R (parse_unsigned R m) b array array [] v refl whole.0
      ∙ rw content (let r = All-read ns b h in rw (r.0, r.1) refl)
