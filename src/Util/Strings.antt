-- ===== src/Util/Strings.antt =====
-- cpp_lib/util/strings: util.cc, split.h, join.h and numbers.h, on lists of bytes.
pub mod Base
pub mod Numbers
use cpp_lib.Prelude.{
  ℕ, zero, suc, ◌+◌, ◌%◌, ◌≡◌, ◌≢◌, Bool, true, false, not, ◌&&◌, ◌||◌, Option, none, some, List,
  [], ◌∷◌, ◌++◌, All, get_elem?, set, length, take, drop, leb, ltb, ◌==◌, if◌then◌else◌,
}
use cpp_lib.Util.File.Make.{rfind}
use cpp_lib.Util.Trim.{is_white_space}

abbrev pub Bytes : Type 0
Bytes = List ℕ

-- `GetBaseName`, where the separator is a slash.
unfoldable pub get_base_name : Bytes → Bytes
get_base_name filename = elim (rfind filename) [
  | none ↦ filename
  | some pos ↦ drop (pos + 1) filename
]

-- The digits, the upper case letters and the lower case letters.
abbrev pub alphanum : Bytes
alphanum =
    48 ∷ 49 ∷ 50 ∷ 51 ∷ 52 ∷ 53 ∷ 54 ∷ 55 ∷ 56 ∷ 57 ∷ 65 ∷ 66 ∷ 67 ∷ 68 ∷ 69 ∷ 70 ∷ 71 ∷ 72 ∷ 73
    ∷ 74 ∷ 75 ∷ 76 ∷ 77 ∷ 78 ∷ 79 ∷ 80 ∷ 81 ∷ 82 ∷ 83 ∷ 84 ∷ 85 ∷ 86 ∷ 87 ∷ 88 ∷ 89 ∷ 90 ∷ 97 ∷ 98
    ∷ 99 ∷ 100 ∷ 101 ∷ 102 ∷ 103 ∷ 104 ∷ 105 ∷ 106 ∷ 107 ∷ 108 ∷ 109 ∷ 110 ∷ 111 ∷ 112 ∷ 113 ∷ 114
    ∷ 115 ∷ 116 ∷ 117 ∷ 118 ∷ 119 ∷ 120 ∷ 121 ∷ 122 ∷ []

-- The loop of `RandomStr`, with the rounds left and `rand i` for the call of `rand` in round `i`.
-- `none` is a write outside of `buf`.
unfoldable pub random_fill : (ℕ → ℕ) → ℕ → ℕ → Bytes → Option Bytes
random_fill rand zero i buf = some buf
random_fill rand (suc left) i buf = elim (get_elem? alphanum (rand i % 62)) [
  | none ↦ none
  | some c ↦
      let rest = random_fill rand left (i + 1) (set buf i c) in
      if ltb i (length buf) then rest else none
]

-- `buf` holds 1024 bytes that are not initialised.
unfoldable pub random_str : (ℕ → ℕ) → Bytes → ℕ → Option Bytes
random_str rand buf len = elim (random_fill rand len 0 buf) [
  | none ↦ none
  | some written ↦ some (take len written)
]

-- The delimiters and the predicates of `absl::StrSplit` that the code uses.
pub data Delimiter : Type 0 where
  by_string : Bytes → Delimiter
  by_char : ℕ → Delimiter

pub data Predicate : Type 0 where
  allow_empty skip_empty skip_whitespace : Predicate

abbrev pub all_white : Bytes → Bool
all_white [] = true
all_white (c ∷ cs) = is_white_space c && all_white cs

abbrev pub has_bytes : Bytes → Bool
has_bytes [] = false
has_bytes (c ∷ cs) = true

-- Whether a predicate lets a piece through.
abbrev pub lets_through : Predicate → Bytes → Bool
lets_through allow_empty piece = true
lets_through skip_empty piece = has_bytes piece
lets_through skip_whitespace piece = not (all_white piece)

unfoldable pub select : Predicate → List Bytes → List Bytes
select p [] = []
select p (piece ∷ pieces) =
    let rest = select p pieces in if lets_through p piece then piece ∷ rest else rest

-- The byte does not occur.
abbrev pub avoids : ℕ → Bytes → Bool
avoids c [] = true
avoids c (b ∷ bs) = not (b == c) && avoids c bs

-- absl, which is not part of the repository: the calls, and what absl documents of them. `Int` is
-- the integer type of a call of `SimpleAtoi`.
pub record Absl : Type 1 where
  pub Int : Type 0
  pub str_split : Delimiter → Predicate → Bytes → List Bytes
  pub str_join : List Bytes → Bytes → Bytes
  pub simple_atoi : Bytes → Option Int
  pub str_split-select :
      (d : Delimiter) (p : Predicate) (text : Bytes)
      → str_split d p text ≡ select p (str_split d allow_empty text)
  pub str_split-empty : (d : Delimiter) → str_split d allow_empty [] ≡ [] ∷ []
  pub str_join-empty : (sep : Bytes) → str_join [] sep ≡ []
  pub str_split-str_join :
      (c : ℕ) (piece : Bytes) (pieces : List Bytes)
      → All (λ s. avoids c s ≡ true) (piece ∷ pieces)
      → str_split (by_char c) allow_empty (str_join (piece ∷ pieces) (c ∷ [])) ≡ piece ∷ pieces
  pub simple_atoi-white : (s : Bytes) → all_white s ≡ true → simple_atoi s ≡ none

module _ (absl : Absl) where
  open absl use {Int}

  -- `SplitStr`, at a string or at a character.
  unfoldable pub split_str : Bytes → Delimiter → Bool → Bool → List Bytes
  split_str str sep is_skip_empty is_skip_whitespace =
      if is_skip_whitespace
      then absl.str_split sep skip_whitespace str
      else if is_skip_empty
      then absl.str_split sep skip_empty str
      else absl.str_split sep allow_empty str

  unfoldable pub simple_atoi : Bytes → Option Int
  simple_atoi str = absl.simple_atoi str

  -- The loop of `SplitAndToInt`.
  unfoldable pub to_ints : List Bytes → List Int
  to_ints [] = []
  to_ints (str ∷ strs) =
      let rest = to_ints strs in elim (simple_atoi str) [ none ↦ rest | some ele ↦ ele ∷ rest ]

  unfoldable pub split_and_to_int : Bytes → Delimiter → Bool → Bool → List Int
  split_and_to_int str sep is_skip_empty is_skip_whitespace =
      to_ints (split_str str sep is_skip_empty is_skip_whitespace)

  -- `StrJoin` of a range of strings.
  unfoldable pub str_join : List Bytes → Bytes → Bytes
  str_join range sep = absl.str_join range sep
