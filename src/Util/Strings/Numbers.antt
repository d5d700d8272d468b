-- ===== src/Util/Strings/Numbers.antt =====
-- Numbers joined by `StrJoin` of cpp_lib/util/strings/join.h and read by `SplitAndToInt` of split.h.
use cpp_lib.Prelude.{
  ℕ, ◌≡◌, refl, ap, ◌∙◌, sym, Bool, true, false, Bool-cases, inl, inr, none, some, List, [], ◌∷◌,
  All, arith,
}
use cpp_lib.Util.Strings.{
  Bytes, Delimiter, by_char, Predicate, allow_empty, skip_empty, skip_whitespace, lets_through,
  select, avoids, Absl, split_str, simple_atoi, to_ints, split_and_to_int, str_join,
}

module _ (absl : Absl) where
  open absl use {Int}

  abbrev predicate : Bool → Bool → Predicate
  predicate is_skip_empty true = skip_whitespace
  predicate true false = skip_empty
  predicate false false = allow_empty

  split_str-select :
      (str : Bytes) (sep : Delimiter) (e w : Bool)
      → split_str absl str sep e w ≡ select (predicate e w) (absl.str_split sep allow_empty str)
  unfolding split_str
  split_str-select str sep true true = absl.str_split-select sep skip_whitespace str
  split_str-select str sep false true = absl.str_split-select sep skip_whitespace str
  split_str-select str sep true false = absl.str_split-select sep skip_empty str
  split_str-select str sep false false = absl.str_split-select sep allow_empty str

  -- A piece that is left out is no number.
  left_out :
      (p : Predicate) (piece : Bytes) → lets_through p piece ≡ false → simple_atoi absl piece ≡ none
  unfolding simple_atoi
  left_out allow_empty piece h = absurd (ground arith)
  left_out skip_empty [] h = absl.simple_atoi-white [] refl
  left_out skip_empty (c ∷ cs) h = absurd (ground arith)
  left_out skip_whitespace piece h = absl.simple_atoi-white piece (ground arith)

  no_number :
      (piece : Bytes) (pieces : List Bytes)
      → simple_atoi absl piece ≡ none
      → to_ints absl (piece ∷ pieces) ≡ to_ints absl pieces
  unfolding to_ints
  no_number piece pieces h = rw (to_ints, h) refl

  a_number :
      (piece : Bytes) (pieces : List Bytes) (n : Int)
      → simple_atoi absl piece ≡ some n
      → to_ints absl (piece ∷ pieces) ≡ n ∷ to_ints absl pieces
  unfolding to_ints
  a_number piece pieces n h = rw (to_ints, h) refl

  -- Whatever the predicate, the numbers are those of all the pieces.
  to_ints-select :
      (p : Predicate) (pieces : List Bytes) → to_ints absl (select p pieces) ≡ to_ints absl pieces
  unfolding to_ints select
  to_ints-select p [] = refl
  to_ints-select p (piece ∷ pieces) = elim (Bool-cases (lets_through p piece)) [
    | inl y ↦ rw y (
        ap (λ (r : List Int). elim (simple_atoi absl piece) [ none ↦ r | some n ↦ n ∷ r ])
          (to_ints-select p pieces))
    | inr n ↦ rw n (to_ints-select p pieces ∙ sym (no_number piece pieces (left_out p piece n)))
  ]

  -- A number as a text that `SimpleAtoi` reads back, without the separator.
  pub record Printed (c : ℕ) : Type 0 where
    pub text : Bytes
    pub number : Int
    pub reads : absl.simple_atoi text ≡ some number
    pub plain : avoids c text ≡ true

  abbrev pub texts : {c : ℕ} → List (Printed c) → List Bytes
  texts [] = []
  texts (n ∷ ns) = n.text ∷ texts ns

  abbrev pub numbers : {c : ℕ} → List (Printed c) → List Int
  numbers [] = []
  numbers (n ∷ ns) = n.number ∷ numbers ns

  to_ints-texts : (c : ℕ) (ns : List (Printed c)) → to_ints absl (texts ns) ≡ numbers ns
  unfolding to_ints simple_atoi
  to_ints-texts c [] = refl
  to_ints-texts c (n ∷ ns) =
      a_number n.text (texts ns) n.number n.reads ∙ ap (◌∷◌ n.number) (to_ints-texts c ns)

  All-plain : (c : ℕ) (ns : List (Printed c)) → All (λ s. avoids c s ≡ true) (texts ns)
  All-plain c [] = tt
  All-plain c (n ∷ ns) = (n.plain, All-plain c ns)

  joined :
      (c : ℕ) (ns : List (Printed c))
      → to_ints absl (absl.str_split (by_char c) allow_empty (absl.str_join (texts ns) (c ∷ [])))
        ≡ numbers ns
  unfolding to_ints simple_atoi
  joined c [] =
      rw (absl.str_join-empty (c ∷ []), absl.str_split-empty (by_char c))
        (no_number [] [] (absl.simple_atoi-white [] refl))
  joined c (n ∷ ns) =
      ap (to_ints absl) (absl.str_split-str_join c n.text (texts ns) (All-plain c (n ∷ ns)))
      ∙ to_ints-texts c (n ∷ ns)

  -- Texts that `SimpleAtoi` reads as numbers and that do not hold the separator, joined by
  -- `StrJoin` with the separator, are read back by `SplitAndToInt` at that character as those
  -- numbers in their order, whether or not empty pieces or white space are skipped.
  pub split_and_to_int-str_join :
      (c : ℕ) (ns : List (Printed c)) (is_skip_empty is_skip_whitespace : Bool)
      → split_and_to_int absl
          (str_join absl (texts ns) (c ∷ []))
          (by_char c)
          is_skip_empty
          is_skip_whitespace
        ≡ numbers ns
  unfolding split_and_to_int str_join
  split_and_to_int-str_join c ns e w =
      ap (to_ints absl) (split_str-select (absl.str_join (texts ns) (c ∷ [])) (by_char c) e w)
      ∙ to_ints-select (predicate e w) _
      ∙ joined c ns
