-- ===== src/Tests/Documents.antt =====
-- A value type that has the laws of rapidjson.
use cpp_lib.Prelude.{
  ℕ, ◌≡◌, ◌≢◌, refl, ap, Bool, true, false, Bool-cases, inl, inr, Option, some, none, List, [], ◌∷◌,
  ◌++◌, arith, if◌then◌else◌, ◌==◌,
}
use cpp_lib.Serialize.Integers.{ℤ, pos, negsuc}
use cpp_lib.Serialize.Rapidjson.{Bytes, Rapidjson, bytes_equal, first_member}
use cpp_lib.Serialize.Maps.{bytes_equal_refl, bytes_equal_sound}

mutual
  pub data Json : Type 0 where
    natural : ℕ → Json
    integer : ℤ → Json
    boolean : Bool → Json
    string : Bytes → Json
    array : Jsons → Json
    object : Members → Json

  pub data Jsons : Type 0 where
    nil : Jsons
    cons : Json → Jsons → Jsons

  pub data Members : Type 0 where
    no_member : Members
    member : Bytes → Json → Members → Members

abbrev pub listed : Jsons → List Json
listed nil = []
listed (cons x xs) = x ∷ listed xs

abbrev pub snoc : Jsons → Json → Jsons
snoc nil v = cons v nil
snoc (cons x xs) v = cons x (snoc xs v)

abbrev pub pairs : Members → List (Bytes × Json)
pairs no_member = []
pairs (member k x rest) = (k, x) ∷ pairs rest

abbrev pub add : Members → Bytes → Json → Members
add no_member k v = member k v no_member
add (member j x rest) k v = member j x (add rest k v)

abbrev pub find_name : Bytes → Members → Option Json
find_name k no_member = none
find_name k (member j x rest) =
    let later = find_name k rest in if bytes_equal j k then some x else later

abbrev pub find : Json → Bytes → Option Json
find (object m) k = find_name k m
find _ _ = none

abbrev pub is_natural : Json → Bool
is_natural (natural n) = true
is_natural _ = false

abbrev pub is_number : Json → Bool
is_number (natural n) = true
is_number (integer z) = true
is_number _ = false

abbrev pub is_array : Json → Bool
is_array (array xs) = true
is_array _ = false

abbrev pub is_object : Json → Bool
is_object (object m) = true
is_object _ = false

abbrev pub number : Json → ℤ
number (natural n) = pos n
number (integer z) = z
number _ = pos 0

abbrev pub magnitude : Json → ℕ
magnitude (natural n) = n
magnitude _ = 0

abbrev pub elements : Json → List Json
elements (array xs) = listed xs
elements _ = []

abbrev pub members : Json → List (Bytes × Json)
members (object m) = pairs m
members _ = []

abbrev pub push : Json → Json → Json
push (array xs) v = array (snoc xs v)
push other v = other

abbrev pub add_member : Json → Bytes → Json → Json
add_member (object m) k v = object (add m k v)
add_member other k v = other

abbrev pub is_string : Json → Bool
is_string (string s) = true
is_string _ = false

abbrev pub is_boolean : Json → Bool
is_boolean (boolean b) = true
is_boolean _ = false

abbrev pub bytes : Json → Bytes
bytes (string s) = s
bytes _ = []

abbrev pub truth : Json → Bool
truth (boolean b) = b
truth _ = false

listed-snoc : (xs : Jsons) (v : Json) → listed (snoc xs v) ≡ listed xs ++ (v ∷ [])
listed-snoc nil v = refl
listed-snoc (cons x xs) v = ap (◌∷◌ x) (listed-snoc xs v)

pub is_array-push : (a v : Json) → is_array a ≡ true → is_array (push a v) ≡ true
is_array-push (array xs) v h = refl
is_array-push (natural n) v h = h
is_array-push (integer z) v h = h
is_array-push (boolean b) v h = h
is_array-push (string s) v h = h
is_array-push (object m) v h = h

pub elements-push : (a v : Json) → is_array a ≡ true → elements (push a v) ≡ elements a ++ (v ∷ [])
elements-push (array xs) v h = listed-snoc xs v
elements-push (natural n) v h = absurd (ground arith)
elements-push (integer z) v h = absurd (ground arith)
elements-push (boolean b) v h = absurd (ground arith)
elements-push (string s) v h = absurd (ground arith)
elements-push (object m) v h = absurd (ground arith)

find_name-add_self :
    (m : Members) (k : Bytes) (v : Json) → find_name k m ≡ none → find_name k (add m k v) ≡ some v
find_name-add_self no_member k v h = rw (bytes_equal_refl k) refl
find_name-add_self (member j x rest) k v h = elim (Bool-cases (bytes_equal j k)) [
  | inl y ↦ absurd (ground (arith, y, h))
  | inr n ↦ rw n (find_name-add_self rest k v (ground (arith, n, h)))
]

find_name-add_ne :
    (m : Members) (j k : Bytes) (v : Json)
    → bytes_equal j k ≡ false
    → find_name k (add m j v) ≡ find_name k m
find_name-add_ne no_member j k v h = rw h refl
find_name-add_ne (member i x rest) j k v h = elim (Bool-cases (bytes_equal i k)) [
  | inl y ↦ rw y refl
  | inr n ↦ rw n (find_name-add_ne rest j k v h)
]

other_name : (j k : Bytes) → j ≢ k → bytes_equal j k ≡ false
other_name j k h = elim (Bool-cases (bytes_equal j k)) [
  | inl y ↦ absurd (h (bytes_equal_sound j k y))
  | inr n ↦ n
]

pub is_object-add :
    (o v : Json) (k : Bytes) → is_object o ≡ true → is_object (add_member o k v) ≡ true
is_object-add (object m) v k h = refl
is_object-add (natural n) v k h = h
is_object-add (integer z) v k h = h
is_object-add (boolean b) v k h = h
is_object-add (string s) v k h = h
is_object-add (array xs) v k h = h

pub find-add_self :
    (o v : Json) (k : Bytes)
    → is_object o ≡ true
    → find o k ≡ none
    → find (add_member o k v) k ≡ some v
find-add_self (object m) v k h e = find_name-add_self m k v e
find-add_self (natural n) v k h e = absurd (ground arith)
find-add_self (integer z) v k h e = absurd (ground arith)
find-add_self (boolean b) v k h e = absurd (ground arith)
find-add_self (string s) v k h e = absurd (ground arith)
find-add_self (array xs) v k h e = absurd (ground arith)

pub find-add_ne :
    (o v : Json) (j k : Bytes) → is_object o ≡ true → j ≢ k → find (add_member o j v) k ≡ find o k
find-add_ne (object m) v j k h ne = find_name-add_ne m j k v (other_name j k ne)
find-add_ne (natural n) v j k h ne = refl
find-add_ne (integer z) v j k h ne = refl
find-add_ne (boolean b) v j k h ne = refl
find-add_ne (string s) v j k h ne = refl
find-add_ne (array xs) v j k h ne = refl

pairs-add : (m : Members) (k : Bytes) (v : Json) → pairs (add m k v) ≡ pairs m ++ ((k, v) ∷ [])
pairs-add no_member k v = refl
pairs-add (member j x rest) k v = ap (◌∷◌ (j, x)) (pairs-add rest k v)

pub members-add :
    (o v : Json) (k : Bytes)
    → is_object o ≡ true
    → members (add_member o k v) ≡ members o ++ ((k, v) ∷ [])
members-add (object m) v k h = pairs-add m k v
members-add (natural n) v k h = absurd (ground arith)
members-add (integer z) v k h = absurd (ground arith)
members-add (boolean b) v k h = absurd (ground arith)
members-add (string s) v k h = absurd (ground arith)
members-add (array xs) v k h = absurd (ground arith)

find_name-first : (m : Members) (k : Bytes) → find_name k m ≡ first_member k (pairs m)
find_name-first no_member k = refl
find_name-first (member j x rest) k = rw (find_name-first rest k) refl

pub find-first : (o : Json) (k : Bytes) → is_object o ≡ true → find o k ≡ first_member k (members o)
find-first (object m) k h = find_name-first m k
find-first (natural n) k h = absurd (ground arith)
find-first (integer z) k h = absurd (ground arith)
find-first (boolean b) k h = absurd (ground arith)
find-first (string s) k h = absurd (ground arith)
find-first (array xs) k h = absurd (ground arith)

abbrev pub zero_double : ℤ → Bool
zero_double (pos n) = n == 0
zero_double (negsuc n) = false

abbrev pub json_lib : Rapidjson
json_lib = record {
  Value = Json;
  Double = ℤ;
  Float = ℤ;
  find_member = find;
  is_object = is_object;
  is_array = is_array;
  is_string = is_string;
  is_bool = is_boolean;
  is_number = is_number;
  is_uint64 = is_natural;
  is_uint = is_natural;
  is_int64 = is_number;
  is_int = is_number;
  get_string = bytes;
  get_bool = truth;
  get_double = number;
  get_float = number;
  widen = λ f. f;
  get_uint64 = magnitude;
  get_uint = magnitude;
  get_int64 = number;
  get_int = number;
  elements = elements;
  members = members;
  new_object = object no_member;
  new_array = array nil;
  from_string = string;
  from_double = integer;
  is_zero_double = zero_double;
  from_bool = boolean;
  from_uint64 = natural;
  from_int64 = integer;
  push_back = push;
  add_member = add_member;
  is_array-new_array = refl;
  elements-new_array = refl;
  is_array-push_back = is_array-push;
  elements-push_back = elements-push;
  is_uint64-from_uint64 = λ n. refl;
  get_uint64-from_uint64 = λ n. refl;
  is_int64-from_uint64 = λ n h. refl;
  get_int64-from_uint64 = λ n h. refl;
  is_int64-from_int64 = λ z. refl;
  get_int64-from_int64 = λ z. refl;
  is_bool-from_bool = λ b. refl;
  get_bool-from_bool = λ b. refl;
  is_string-from_string = λ s. refl;
  get_string-from_string = λ s. refl;
  is_number-from_double = λ d. refl;
  get_double-from_double = λ d. refl;
  get_float-from_double = λ f. refl;
  is_object-new_object = refl;
  find_member-new_object = λ k. refl;
  members-new_object = refl;
  members-add_member = members-add;
  is_object-add_member = is_object-add;
  find_member-add_member = find-add_self;
  find_member-add_member_ne = find-add_ne;
  find_member-members = find-first;
}
