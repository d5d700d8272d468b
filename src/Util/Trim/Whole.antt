-- ===== src/Util/Trim/Whole.antt =====
-- A line of `TrimEmptyLines` of cpp_lib/util/strings/trim.cc: what both trims leave of it.
use cpp_lib.Prelude.{
  ℕ, ◌≡◌, refl, ap, ◌∙◌, true, false, inl, inr, Option-cases, List, [], ◌∷◌, ◌++◌, arith, has,
}
use cpp_lib.Util.Trim.{find_last_not_of, trim_left_white_space, trim_right_white_space}
use cpp_lib.Util.Trim.Margins.{
  starts_clean, ends_clean, left_clean, left_nil, right_nil, right_empty, right_last, right_cons,
  left_margin, right_margin,
}

unfoldable pub trimmed : List ℕ → List ℕ
trimmed line = trim_right_white_space (trim_left_white_space line)

has-parts : (l r : List ℕ) → has 10 (l ++ r) ≡ false → (has 10 l ≡ false) × (has 10 r ≡ false)
has-parts [] r h = (refl, h)
has-parts (x ∷ l) r h = let (a, b) = has-parts l r (ground arith) in (ground (arith, a), b)

starts-part : (l r s : List ℕ) → l ++ r ≡ s → starts_clean s ≡ true → starts_clean l ≡ true
starts-part [] r s e h = refl
starts-part (x ∷ l) r s e h = ap starts_clean e ∙ h

pub trimmed-clean :
    (line : List ℕ)
    → has 10 line ≡ false
    → (has 10 (trimmed line) ≡ false)
      × (starts_clean (trimmed line) ≡ true)
      × (ends_clean (trimmed line) ≡ true)
unfolding trimmed
trimmed-clean line h =
    let (l, white_l, left, first, keeps) = left_margin line in
    let (r, white_r, right, last) = right_margin (trim_left_white_space line) in
    let line' = trim_left_white_space line in
    let inner = (has-parts l line' (ap (has 10) left ∙ h)).1 in
    let t = trim_right_white_space line' in
    ((has-parts t r (ap (has 10) right ∙ inner)).0, starts-part t r line' right first, last)

-- A line without margins is not cut.
pub left-whole : (line : List ℕ) → starts_clean line ≡ true → trim_left_white_space line ≡ line
left-whole [] h = left_nil
left-whole (c ∷ cs) h = left_clean c cs (ground arith)

pub right-whole : (line : List ℕ) → ends_clean line ≡ true → trim_right_white_space line ≡ line
unfolding find_last_not_of
right-whole [] h = right_nil
right-whole (c ∷ []) h = right_last c [] refl (ground arith)
right-whole (c ∷ d ∷ cs) h = elim (Option-cases (find_last_not_of (d ∷ cs))) [
  | inl e ↦ absurd (ground (arith, right_empty (d ∷ cs) e, right-whole (d ∷ cs) h))
  | inr (i, e) ↦ right_cons c (d ∷ cs) i e ∙ ap (◌∷◌ c) (right-whole (d ∷ cs) h)
]
