-- ===== src/Serialize/Maps.antt =====
-- The `Parse` and `Serialize` overloads on maps from strings. A map is what its pairs look up: two
-- lists of pairs that look up the same are one map, whatever the order of the iterators.
use mathlib.Core.List.{append-nil, append_assoc}
use mathlib.Core.Quot
use mathlib.Core.Quot.{Quot}
use cpp_lib.Prelude.{
  ◌≡◌, ◌≢◌, refl, ap, sym, ◌∙◌, Bool, true, false, Bool-cases, inl, inr, Option, none, some, List,
  [], ◌∷◌, ◌++◌, if◌then◌else◌, ◌==◌, has, arith,
}
use cpp_lib.Serialize.Rapidjson.{Bytes, Rapidjson, c_str, bytes_equal}
use cpp_lib.Serialize.Parse.{get_json_filed_value, parse_members, parse_map}
use cpp_lib.Serialize.Write.{add_json_member, serialize_members, serialize_map}

pub bytes_equal_refl : (k : Bytes) → bytes_equal k k ≡ true
bytes_equal_refl [] = refl
bytes_equal_refl (c ∷ cs) = ground (arith, bytes_equal_refl cs)

pub bytes_equal_sound : (j k : Bytes) → bytes_equal j k ≡ true → j ≡ k
bytes_equal_sound [] [] h = refl
bytes_equal_sound [] (y ∷ ys) h = absurd (ground arith)
bytes_equal_sound (x ∷ xs) [] h = absurd (ground arith)
bytes_equal_sound (x ∷ xs) (y ∷ ys) h = ground (arith, bytes_equal_sound xs ys)

module _ {A : Type 0} where
  abbrev pub lookup : Bytes → List (Bytes × A) → Option A
  lookup k [] = none
  lookup k ((j, x) ∷ m) = if bytes_equal j k then some x else lookup k m

  abbrev pub SameLookups : List (Bytes × A) → List (Bytes × A) → Type 0
  SameLookups m n = (k : Bytes) → lookup k m ≡ lookup k n

  -- No key twice.
  abbrev pub DistinctKeys : List (Bytes × A) → Type 0
  DistinctKeys [] = Unit
  DistinctKeys ((j, x) ∷ m) = (lookup j m ≡ none) × DistinctKeys m

  -- The pairs assigned one after the other to a map.
  abbrev assigned : List (Bytes × A) → List (Bytes × A) → List (Bytes × A)
  assigned [] v = v
  assigned ((k, x) ∷ m) v = assigned m ((k, x) ∷ v)

  abbrev or_else : Option A → Option A → Option A
  or_else none o = o
  or_else (some x) o = some x

  or_else-none : (o : Option A) → or_else o none ≡ o
  or_else-none none = refl
  or_else-none (some x) = refl

  lookup-assigned :
      (m v : List (Bytes × A)) (k : Bytes)
      → DistinctKeys m
      → lookup k (assigned m v) ≡ or_else (lookup k m) (lookup k v)
  lookup-assigned [] v k d = refl
  lookup-assigned ((j, x) ∷ m) v k d =
      lookup-assigned m ((j, x) ∷ v) k d.1 ∙ elim (Bool-cases (bytes_equal j k)) [
        | inl y ↦ rw (y, sym (ap (λ i. lookup i m) (bytes_equal_sound j k y)), d.0) refl
        | inr n ↦ rw n refl
      ]

-- `std::map` and `std::unordered_map` from strings.
abbrev pub StringMap : Type 0 → Type 0
StringMap A = Quot (SameLookups {A = A})

-- A name without a zero byte.
c_str-whole : (k : Bytes) → has 0 k ≡ false → c_str k ≡ k
unfolding c_str
c_str-whole [] h = refl
c_str-whole (c ∷ cs) h =
    let e : (c == 0) ≡ false = ground arith in rw e (ap (◌∷◌ c) (c_str-whole cs (ground arith)))

module _ (R : Rapidjson) {A : Type 0} (parse : R.Value → Bytes → A → Bool × A) (blank : A)
    (serialize : R.Value → Option Bytes → A → Bool → R.Value) where
  -- `Serialize` of the element adds one value, which `Parse` reads back.
  pub record ReadsBack (x : A) : Type 0 where
    pub value : R.Value
    pub wrote :
        (json : R.Value) (name : Bytes)
        → serialize json (some name) x false ≡ add_json_member R json (some name) value
    pub read : parse value [] blank ≡ (true, x)

  pub record Entry : Type 0 where
    pub key : Bytes
    pub element : A
    pub reads_back : ReadsBack element
    pub key_nonempty : key ≢ []
    pub key_terminated : has 0 key ≡ false

  abbrev pub pairs : List Entry → List (Bytes × A)
  pairs [] = []
  pairs (e ∷ es) = (e.key, e.element) ∷ pairs es

  abbrev values : List Entry → List (Bytes × R.Value)
  values [] = []
  values (e ∷ es) = (e.key, e.reads_back.value) ∷ values es

  add-nonempty :
      (o v : R.Value) (k : Bytes) → k ≢ [] → add_json_member R o (some k) v ≡ R.add_member o k v
  unfolding add_json_member
  add-nonempty o v [] h = absurd (h refl)
  add-nonempty o v (c ∷ cs) h = refl

  serialize_members-values :
      (es : List Entry) (o : R.Value)
      → R.is_object o ≡ true
      → (R.is_object (serialize_members R serialize o (pairs es)) ≡ true)
        × (R.members (serialize_members R serialize o (pairs es)) ≡ R.members o ++ values es)
  unfolding serialize_members
  serialize_members-values [] o h = (h, sym (append-nil (R.members o)))
  serialize_members-values (e ∷ es) o h =
      let v = e.reads_back.value in
      let one = e.reads_back.wrote o e.key ∙ add-nonempty o v e.key e.key_nonempty in
      let rest =
        serialize_members-values es (R.add_member o e.key v) (R.is_object-add_member o v e.key h) in
      let whole =
        ap (λ k. serialize o (some k) e.element false) (c_str-whole e.key e.key_terminated) in
      let step = ap (λ (x : R.Value). serialize_members R serialize x (pairs es)) (whole ∙ one) in
      (
        ap R.is_object step ∙ rest.0,
        ap R.members step
            ∙ rest.1
            ∙ ap (λ u. u ++ values es) (R.members-add_member o v e.key h)
            ∙ append_assoc (R.members o) ((e.key, v) ∷ []) (values es),
      )

  parse_members-values :
      (es : List Entry) (v : List (Bytes × A))
      → parse_members R parse blank (values es) v ≡ (true, assigned (pairs es) v)
  unfolding parse_members
  parse_members-values [] v = refl
  parse_members-values (e ∷ es) v =
      rw (e.reads_back.read, c_str-whole e.key e.key_terminated)
        (parse_members-values es ((e.key, e.element) ∷ v))

  -- A map that `Serialize` has written, its pairs in any order of the iterators, its keys not
  -- empty and without a zero byte, and its elements such that `Parse` reads back the value that
  -- `Serialize` adds for them, is read back by `Parse` with result true, whatever the variable
  -- held and whether or not defaults are ignored: in the quotient of the lists of pairs that look
  -- up the same, the map read is the map written.
  pub parse_map-serialize_map :
      (es : List Entry) (v : List (Bytes × A)) (json : R.Value) (ignore_default : Bool)
      → DistinctKeys (pairs es)
      → (m : List (Bytes × A)) × (parse_map R parse blank
            (serialize_map R serialize json none (pairs es) ignore_default)
            []
            v
          ≡ (true, m))
        × (◌≡◌ {A = StringMap A} (Quot.mk m) (Quot.mk (pairs es)))
  unfolding parse_map serialize_map add_json_member get_json_filed_value
  parse_map-serialize_map es v json ignore d =
      let whole = serialize_members-values es R.new_object R.is_object-new_object in
      let content : R.members (serialize_members R serialize R.new_object (pairs es)) ≡ values es =
        whole.1 ∙ ap (λ u. u ++ values es) R.members-new_object in
      (
        assigned (pairs es) [],
        rw (whole.0, content) (parse_members-values es []),
        Quot.sound (λ k. lookup-assigned (pairs es) [] k d ∙ or_else-none (lookup k (pairs es))),
      )
