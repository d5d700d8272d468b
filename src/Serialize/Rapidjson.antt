-- ===== src/Serialize/Rapidjson.antt =====
-- `rapidjson::Value`, which is not part of the repository: the calls that the code makes, and what
-- rapidjson documents of them. Names are lists of bytes, without the closing zero.
use cpp_lib.Prelude.{
  ℕ, ◌<◌, ◌^◌, Bool, true, false, ◌&&◌, ◌==◌, if◌then◌else◌, Option, none, some, List, [], ◌∷◌,
  ◌++◌, ◌≡◌, ◌≢◌,
}
use cpp_lib.Serialize.Integers.{ℤ, pos}

abbrev pub Bytes : Type 0
Bytes = List ℕ

-- What `strlen` reads of the bytes of a string behind `c_str()`: up to the first zero.
unfoldable pub c_str : Bytes → Bytes
c_str [] = []
c_str (c ∷ cs) = let rest = c_str cs in if c == 0 then [] else c ∷ rest

abbrev pub bytes_equal : Bytes → Bytes → Bool
bytes_equal [] [] = true
bytes_equal [] (y ∷ ys) = false
bytes_equal (x ∷ xs) [] = false
bytes_equal (x ∷ xs) (y ∷ ys) = (x == y) && bytes_equal xs ys

-- The value of the first pair under a name.
abbrev pub first_member : {A : Type 0} → Bytes → List (Bytes × A) → Option A
first_member k [] = none
first_member k ((j, x) ∷ m) =
    let later = first_member k m in if bytes_equal j k then some x else later

-- `widen` is the conversion of a `float` to `double`. `is_zero_double` is the comparison of a `double` with 0. `from_uint64 n` is a value after `SetUint64(n)`, and `new_array` one of `kArrayType`.
-- `elements` and `members` are what the iterators run over.
pub record Rapidjson : Type 1 where
  pub Value : Type 0
  pub Double : Type 0
  pub Float : Type 0
  pub find_member : Value → Bytes → Option Value
  pub is_object : Value → Bool
  pub is_array : Value → Bool
  pub is_string : Value → Bool
  pub is_bool : Value → Bool
  pub is_number : Value → Bool
  pub is_uint64 : Value → Bool
  pub is_uint : Value → Bool
  pub is_int64 : Value → Bool
  pub is_int : Value → Bool
  pub get_string : Value → Bytes
  pub get_bool : Value → Bool
  pub get_double : Value → Double
  pub get_float : Value → Float
  pub widen : Float → Double
  pub get_uint64 : Value → ℕ
  pub get_uint : Value → ℕ
  pub get_int64 : Value → ℤ
  pub get_int : Value → ℤ
  pub elements : Value → List Value
  pub members : Value → List (Bytes × Value)
  pub new_object : Value
  pub new_array : Value
  pub from_string : Bytes → Value
  pub from_double : Double → Value
  pub is_zero_double : Double → Bool
  pub from_bool : Bool → Value
  pub from_uint64 : ℕ → Value
  pub from_int64 : ℤ → Value
  pub push_back : Value → Value → Value
  pub add_member : Value → Bytes → Value → Value
  pub is_array-new_array : is_array new_array ≡ true
  pub elements-new_array : elements new_array ≡ []
  pub is_array-push_back : (a v : Value) → is_array a ≡ true → is_array (push_back a v) ≡ true
  pub elements-push_back :
      (a v : Value) → is_array a ≡ true → elements (push_back a v) ≡ elements a ++ (v ∷ [])
  pub is_uint64-from_uint64 : (n : ℕ) → is_uint64 (from_uint64 n) ≡ true
  pub get_uint64-from_uint64 : (n : ℕ) → get_uint64 (from_uint64 n) ≡ n
  pub is_int64-from_uint64 : (n : ℕ) → n < 2 ^ 63 → is_int64 (from_uint64 n) ≡ true
  pub get_int64-from_uint64 : (n : ℕ) → n < 2 ^ 63 → get_int64 (from_uint64 n) ≡ pos n
  pub is_int64-from_int64 : (z : ℤ) → is_int64 (from_int64 z) ≡ true
  pub get_int64-from_int64 : (z : ℤ) → get_int64 (from_int64 z) ≡ z
  pub is_bool-from_bool : (b : Bool) → is_bool (from_bool b) ≡ true
  pub get_bool-from_bool : (b : Bool) → get_bool (from_bool b) ≡ b
  pub is_string-from_string : (s : Bytes) → is_string (from_string s) ≡ true
  pub get_string-from_string : (s : Bytes) → get_string (from_string s) ≡ s
  pub is_number-from_double : (d : Double) → is_number (from_double d) ≡ true
  pub get_double-from_double : (d : Double) → get_double (from_double d) ≡ d
  pub get_float-from_double : (f : Float) → get_float (from_double (widen f)) ≡ f
  pub is_object-new_object : is_object new_object ≡ true
  pub find_member-new_object : (k : Bytes) → find_member new_object k ≡ none
  pub members-new_object : members new_object ≡ []
  pub members-add_member :
      (o v : Value) (k : Bytes)
      → is_object o ≡ true
      → members (add_member o k v) ≡ members o ++ ((k, v) ∷ [])
  pub is_object-add_member :
      (o v : Value) (k : Bytes) → is_object o ≡ true → is_object (add_member o k v) ≡ true
  pub find_member-add_member :
      (o v : Value) (k : Bytes)
      → is_object o ≡ true
      → find_member o k ≡ none
      → find_member (add_member o k v) k ≡ some v
  pub find_member-add_member_ne :
      (o v : Value) (j k : Bytes)
      → is_object o ≡ true
      → j ≢ k
      → find_member (add_member o j v) k ≡ find_member o k
  pub find_member-members :
      (o : Value) (k : Bytes) → is_object o ≡ true → find_member o k ≡ first_member k (members o)
