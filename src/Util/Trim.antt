-- ===== src/Util/Trim.antt =====
-- cpp_lib/util/strings/trim.cc. A string is the list of its bytes.
pub mod Margins
pub mod Affix
pub mod Whole
pub mod Lines
use cpp_lib.Prelude.{
  ℕ, zero, suc, ◌+◌, ◌-◌, ◌&&◌, ◌||◌, ◌==◌, ltb, not, Bool, true, false, Option, none, some, List,
  [], ◌∷◌, ◌++◌, length, take, drop, if◌then◌else◌,
}

-- A byte of `kWhiteSpace`.
unfoldable pub is_white_space : ℕ → Bool
is_white_space c = c == 32 || c == 10 || c == 13 || c == 9 || c == 12 || c == 11

-- `find_first_not_of(kWhiteSpace)`, `none` for `npos`.
unfoldable pub find_first_not_of : List ℕ → Option ℕ
find_first_not_of [] = none
find_first_not_of (c ∷ cs) =
    let rest = find_first_not_of cs in
    if is_white_space c then elim rest [ none ↦ none | some i ↦ some (suc i) ] else some 0

-- `find_last_not_of(kWhiteSpace)`.
unfoldable pub find_last_not_of : List ℕ → Option ℕ
find_last_not_of [] = none
find_last_not_of (c ∷ cs) = elim (find_last_not_of cs) [
  | none ↦ if is_white_space c then none else some 0
  | some i ↦ some (suc i)
]

unfoldable pub trim_left_white_space : List ℕ → List ℕ
trim_left_white_space str = elim (find_first_not_of str) [ none ↦ [] | some start ↦ drop start str ]

unfoldable pub trim_right_white_space : List ℕ → List ℕ
trim_right_white_space str = elim (find_last_not_of str) [
  | none ↦ []
  | some last ↦ take (last + 1) str
]

unfoldable pub trim_white_space : List ℕ → List ℕ
trim_white_space [] = []
trim_white_space (c ∷ cs) = trim_left_white_space (trim_right_white_space (c ∷ cs))

-- `==` of strings.
abbrev pub string_equal : List ℕ → List ℕ → Bool
string_equal [] [] = true
string_equal [] (y ∷ ys) = false
string_equal (x ∷ xs) [] = false
string_equal (x ∷ xs) (y ∷ ys) = (x == y) && string_equal xs ys

unfoldable pub trim_prefix_str : List ℕ → List ℕ → List ℕ
trim_prefix_str str prefix =
    if ltb (length str) (length prefix) || not (string_equal (take (length prefix) str) prefix)
    then str
    else drop (length prefix) str

unfoldable pub trim_suffix_str : List ℕ → List ℕ → List ℕ
trim_suffix_str str suffix =
    let kept = length str - length suffix in
    if ltb (length str) (length suffix) || not (string_equal (drop kept str) suffix)
    then str
    else take kept str

unfoldable pub trim_str : List ℕ → List ℕ → List ℕ
trim_str [] text = []
trim_str (c ∷ cs) text = trim_prefix_str (trim_suffix_str (c ∷ cs) text) text

-- `std::getline` over the whole stream: a closing newline starts no further line.
abbrev pub get_lines : List ℕ → List ℕ → List (List ℕ)
get_lines [] [] = []
get_lines (b ∷ line) [] = (b ∷ line) ∷ []
get_lines line (c ∷ cs) =
    if c == 10 then line ∷ get_lines [] cs else get_lines (line ++ (c ∷ [])) cs

-- The loop of `TrimEmptyLines`.
unfoldable pub append_lines : List (List ℕ) → List ℕ → List ℕ
append_lines [] text = text
append_lines (line ∷ lines) text = elim (trim_right_white_space (trim_left_white_space line)) [
  | [] ↦ append_lines lines text
  | c ∷ cs ↦
      if c == 35
      then append_lines lines text
      else append_lines lines (text ++ ((c ∷ cs) ++ (10 ∷ [])))
]

unfoldable pub trim_empty_lines : List ℕ → List ℕ
trim_empty_lines str = append_lines (get_lines [] str) []
