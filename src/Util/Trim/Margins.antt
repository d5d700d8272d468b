-- ===== src/Util/Trim/Margins.antt =====
-- What the trim functions of cpp_lib/util/strings/trim.cc cut off.
use mathlib.Core.List.{append_assoc}
use cpp_lib.Prelude.{
  ℕ, suc, ◌+◌, ◌≡◌, refl, sym, ap, ◌∙◌, Bool, true, false, not, Bool-cases, inl, inr, Option, none,
  some, Option-cases, List, [], ◌∷◌, ◌++◌, take, arith, All,
}
use cpp_lib.Util.Trim.{
  is_white_space, find_first_not_of, find_last_not_of, trim_left_white_space,
  trim_right_white_space, trim_white_space,
}

-- The first byte, if any, is no white space.
abbrev pub starts_clean : List ℕ → Bool
starts_clean [] = true
starts_clean (c ∷ cs) = not (is_white_space c)

-- The last byte, if any, is no white space.
abbrev pub ends_clean : List ℕ → Bool
ends_clean [] = true
ends_clean (c ∷ []) = not (is_white_space c)
ends_clean (c ∷ d ∷ cs) = ends_clean (d ∷ cs)

abbrev pub White : List ℕ → Type 0
White cs = All (λ c. is_white_space c ≡ true) cs

ends-tail : (c : ℕ) (cs : List ℕ) → ends_clean (c ∷ cs) ≡ true → ends_clean cs ≡ true
ends-tail c [] h = refl
ends-tail c (d ∷ cs) h = h

left_white :
    (c : ℕ) (cs : List ℕ)
    → is_white_space c ≡ true
    → trim_left_white_space (c ∷ cs) ≡ trim_left_white_space cs
unfolding trim_left_white_space find_first_not_of
left_white c cs h = elim (Option-cases (find_first_not_of cs)) [
  | inl e ↦ rw (trim_left_white_space, find_first_not_of, h, e) refl
  | inr (i, e) ↦ rw (trim_left_white_space, find_first_not_of, h, e) refl
]

pub left_clean :
    (c : ℕ) (cs : List ℕ) → is_white_space c ≡ false → trim_left_white_space (c ∷ cs) ≡ c ∷ cs
unfolding trim_left_white_space find_first_not_of
left_clean c cs h = rw (trim_left_white_space, find_first_not_of, h) refl

pub left_nil : trim_left_white_space [] ≡ []
unfolding trim_left_white_space find_first_not_of
left_nil = refl

pub left_margin :
    (str : List ℕ)
    → (l : List ℕ) × White l
      × (l ++ trim_left_white_space str ≡ str)
      × (starts_clean (trim_left_white_space str) ≡ true)
      × (ends_clean str ≡ true → ends_clean (trim_left_white_space str) ≡ true)
left_margin [] = rw left_nil ([], tt, refl, refl, λ h. h)
left_margin (c ∷ cs) = elim (Bool-cases (is_white_space c)) [
  | inl white ↦
      let (l, all, whole, first, last) = left_margin cs in
      rw (left_white c cs white)
        (c ∷ l, (white, all), ap (◌∷◌ c) whole, first, λ h. last (ends-tail c cs h))
  | inr clean ↦ rw (left_clean c cs clean) ([], tt, refl, ap not clean, λ h. h)
]

pub right_nil : trim_right_white_space [] ≡ []
unfolding trim_right_white_space find_last_not_of
right_nil = refl

pub right_empty : (cs : List ℕ) → find_last_not_of cs ≡ none → trim_right_white_space cs ≡ []
unfolding trim_right_white_space
right_empty cs h = rw (trim_right_white_space, h) refl

right_white :
    (c : ℕ) (cs : List ℕ)
    → find_last_not_of cs ≡ none
    → is_white_space c ≡ true
    → trim_right_white_space (c ∷ cs) ≡ []
unfolding trim_right_white_space find_last_not_of
right_white c cs e h = rw (trim_right_white_space, find_last_not_of, e, h) refl

pub right_last :
    (c : ℕ) (cs : List ℕ)
    → find_last_not_of cs ≡ none
    → is_white_space c ≡ false
    → trim_right_white_space (c ∷ cs) ≡ c ∷ []
unfolding trim_right_white_space find_last_not_of
right_last c cs e h = rw (trim_right_white_space, find_last_not_of, e, h) refl

pub right_cons :
    (c : ℕ) (cs : List ℕ) (i : ℕ)
    → find_last_not_of cs ≡ some i
    → trim_right_white_space (c ∷ cs) ≡ c ∷ trim_right_white_space cs
unfolding trim_right_white_space find_last_not_of
right_cons c cs i e =
    let more : suc i + 1 ≡ suc (i + 1) = omega arith in
    rw (trim_right_white_space, find_last_not_of, e) (ap (λ n. take n (c ∷ cs)) more)

nonempty :
    (cs : List ℕ) (i : ℕ)
    → find_last_not_of cs ≡ some i
    → (d : ℕ) × (ds : List ℕ) × (trim_right_white_space cs ≡ d ∷ ds)
unfolding trim_right_white_space find_last_not_of
nonempty [] i e = absurd (ground arith)
nonempty (d ∷ cs) i e =
    let more : i + 1 ≡ suc i = omega arith in
    (d, take i cs, ap taken e ∙ ap (λ n. take n (d ∷ cs)) more)
  where
    taken : Option ℕ → List ℕ
    taken o = elim o [ none ↦ [] | some last ↦ take (last + 1) (d ∷ cs) ]

pub right_margin :
    (str : List ℕ)
    → (r : List ℕ) × White r
      × (trim_right_white_space str ++ r ≡ str)
      × (ends_clean (trim_right_white_space str) ≡ true)
right_margin [] = rw right_nil ([], tt, refl, refl)
right_margin (c ∷ cs) =
    let (r, all, whole, last) = right_margin cs in
    elim (Option-cases (find_last_not_of cs)) [
      | inl e ↦
          let same : r ≡ cs = ap (λ t. t ++ r) (sym (right_empty cs e)) ∙ whole in
          elim (Bool-cases (is_white_space c)) [
            | inl white ↦ rw (right_white c cs e white) (c ∷ r, (white, all), ap (◌∷◌ c) same, refl)
            | inr clean ↦ rw (right_last c cs e clean) (r, all, ap (◌∷◌ c) same, ap not clean)
          ]
      | inr (i, e) ↦
          let (d, ds, shape) = nonempty cs i e in
          rw (right_cons c cs i e) (
            r,
            all,
            ap (◌∷◌ c) whole,
            ap (λ t. ends_clean (c ∷ t)) shape ∙ sym (ap ends_clean shape) ∙ last,
          )
    ]

whole_string :
    (str : List ℕ) → trim_white_space str ≡ trim_left_white_space (trim_right_white_space str)
unfolding trim_white_space
whole_string [] = sym (ap trim_left_white_space right_nil ∙ left_nil)
whole_string (c ∷ cs) = refl

-- `TrimWhiteSpace` cuts a string into white space, its result and white space, and the result
-- neither starts nor ends with white space.
pub trim_white_space-margins :
    (str : List ℕ)
    → (l r : List ℕ) × White l
      × White r
      × (l ++ (trim_white_space str ++ r) ≡ str)
      × (starts_clean (trim_white_space str) ≡ true)
      × (ends_clean (trim_white_space str) ≡ true)
trim_white_space-margins str =
    let (r, white_r, right, last) = right_margin str in
    let (l, white_l, left, first, keeps) = left_margin (trim_right_white_space str) in
    rw (whole_string str) (
      l,
      r,
      white_l,
      white_r,
      sym (append_assoc l _ r) ∙ ap (λ t. t ++ r) left ∙ right,
      first,
      keeps last,
    )
