-- ===== src/Tests/Absl.antt =====
-- A split and a join that have the laws of absl, and the theorems on cpp_lib/util/strings at them.
use cpp_lib.Prelude.{
  ℕ, ◌≡◌, refl, ap, ◌∙◌, true, false, Option, none, some, List, [], ◌∷◌, ◌++◌, All, zero, suc, ◌==◌,
  if◌then◌else◌, arith,
}
use cpp_lib.Util.Trim.{is_white_space}
use cpp_lib.Util.File.Make.{slash, rfind}
use cpp_lib.Util.Strings.{
  Bytes, Delimiter, by_string, by_char, Predicate, allow_empty, all_white, select, avoids, Absl,
  get_base_name, random_str, split_and_to_int, str_join,
}
use cpp_lib.Util.Strings.Base.{Drawn, random_str-Drawn, get_base_name-append}
use cpp_lib.Util.Strings.Numbers.{Printed, texts, numbers, split_and_to_int-str_join}

abbrev push : ℕ → List Bytes → List Bytes
push b [] = (b ∷ []) ∷ []
push b (p ∷ ps) = (b ∷ p) ∷ ps

abbrev split_on : ℕ → Bytes → List Bytes
split_on c [] = [] ∷ []
split_on c (b ∷ bs) = if b == c then [] ∷ split_on c bs else push b (split_on c bs)

-- A string as a delimiter is not looked for.
abbrev cut : Delimiter → Bytes → List Bytes
cut (by_string sep) text = text ∷ []
cut (by_char c) text = split_on c text

cut-empty : (d : Delimiter) → cut d [] ≡ [] ∷ []
cut-empty (by_string sep) = refl
cut-empty (by_char c) = refl

abbrev join : List Bytes → Bytes → Bytes
join [] sep = []
join (p ∷ []) sep = p
join (p ∷ q ∷ ps) sep = p ++ (sep ++ join (q ∷ ps) sep)

split_on-plain : (c : ℕ) (p : Bytes) → avoids c p ≡ true → split_on c p ≡ p ∷ []
split_on-plain c [] h = refl
split_on-plain c (b ∷ bs) h =
    let ne : (b == c) ≡ false = ground arith in rw (ne, split_on-plain c bs (ground arith)) refl

split_on-append :
    (c : ℕ) (p rest : Bytes)
    → avoids c p ≡ true
    → split_on c (p ++ (c ∷ rest)) ≡ p ∷ split_on c rest
split_on-append c [] rest h = let same : (c == c) ≡ true = ground arith in rw same refl
split_on-append c (b ∷ bs) rest h =
    let ne : (b == c) ≡ false = ground arith in
    rw (ne, split_on-append c bs rest (ground arith)) refl

split_on-join :
    (c : ℕ) (p : Bytes) (ps : List Bytes)
    → All (λ s. avoids c s ≡ true) (p ∷ ps)
    → split_on c (join (p ∷ ps) (c ∷ [])) ≡ p ∷ ps
split_on-join c p [] h = split_on-plain c p h.0
split_on-join c p (q ∷ qs) h =
    split_on-append c p (join (q ∷ qs) (c ∷ [])) h.0 ∙ ap (◌∷◌ p) (split_on-join c q qs h.1)

select-all : (ps : List Bytes) → select allow_empty ps ≡ ps
unfolding select
select-all [] = refl
select-all (p ∷ ps) = ap (◌∷◌ p) (select-all ps)

-- An integer is its text here, and white space is none.
abbrev read : Bytes → Option Bytes
read s = if all_white s then none else some s

read-white : (s : Bytes) → all_white s ≡ true → read s ≡ none
read-white s h = rw h refl

joined :
    (c : ℕ) (p : Bytes) (ps : List Bytes)
    → All (λ s. avoids c s ≡ true) (p ∷ ps)
    → select allow_empty (cut (by_char c) (join (p ∷ ps) (c ∷ []))) ≡ p ∷ ps
joined c p ps h = select-all _ ∙ split_on-join c p ps h

selected :
    (d : Delimiter) (q : Predicate) (text : Bytes)
    → select q (cut d text) ≡ select q (select allow_empty (cut d text))
selected d q text = rw (select-all (cut d text)) refl

abbrev texts_lib : Absl
texts_lib = record {
  Int = Bytes;
  str_split = λ d p text. select p (cut d text);
  str_join = join;
  simple_atoi = read;
  str_split-select = selected;
  str_split-empty = λ d. select-all (cut d []) ∙ cut-empty d;
  str_join-empty = λ sep. refl;
  str_split-str_join = joined;
  simple_atoi-white = read-white;
}

twelve_reads : read (49 ∷ 50 ∷ []) ≡ some (49 ∷ 50 ∷ [])
unfolding is_white_space
twelve_reads = refl

abbrev twelve : Printed texts_lib 44
twelve = record { text = 49 ∷ 50 ∷ []; number = 49 ∷ 50 ∷ []; reads = twelve_reads; plain = refl }

split_and_to_int-str_join_example :
    split_and_to_int texts_lib
      (str_join texts_lib (texts texts_lib (twelve ∷ twelve ∷ [])) (44 ∷ []))
      (by_char 44)
      true
      false
    ≡ numbers texts_lib (twelve ∷ twelve ∷ [])
split_and_to_int-str_join_example =
    split_and_to_int-str_join texts_lib 44 (twelve ∷ twelve ∷ []) true false

abbrev zeros : ℕ → Bytes
zeros zero = []
zeros (suc n) = 0 ∷ zeros n

random_str-Drawn_example : Drawn 3 (random_str (λ i. i) (zeros 1024) 3)
random_str-Drawn_example = random_str-Drawn (λ i. i) (zeros 1024) 3 refl

name_plain : rfind (98 ∷ []) ≡ none
unfolding rfind
name_plain = refl

get_base_name-append_example :
    (get_base_name (98 ∷ []) ≡ 98 ∷ []) × (get_base_name ((97 ∷ []) ++ (slash ∷ 98 ∷ [])) ≡ 98 ∷ [])
get_base_name-append_example = get_base_name-append (97 ∷ []) (98 ∷ []) name_plain
