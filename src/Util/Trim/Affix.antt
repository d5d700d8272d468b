-- ===== src/Util/Trim/Affix.antt =====
-- What `TrimStr` of cpp_lib/util/strings/trim.cc cuts off.
use mathlib.Core.List.{append-nil, append_assoc}
use cpp_lib.Prelude.{
  ℕ, zero, suc, ◌-◌, ◌≡◌, ◌⊎◌, refl, sym, ap, ◌∙◌, true, false, not, ◌||◌, Bool-cases, inl, inr,
  List, [], ◌∷◌, ◌++◌, length, length-append, take, ltb, arith,
}
use cpp_lib.Prelude.{drop}
use cpp_lib.Util.Trim.{string_equal, trim_prefix_str, trim_suffix_str, trim_str}

string_equal_refl : (s : List ℕ) → string_equal s s ≡ true
string_equal_refl [] = refl
string_equal_refl (c ∷ cs) = ground (arith, string_equal_refl cs)

string_equal_sound : (s t : List ℕ) → string_equal s t ≡ true → s ≡ t
string_equal_sound [] [] h = refl
string_equal_sound [] (y ∷ ys) h = absurd (ground arith)
string_equal_sound (x ∷ xs) [] h = absurd (ground arith)
string_equal_sound (x ∷ xs) (y ∷ ys) h = ground (arith, string_equal_sound xs ys)

cut : (n : ℕ) (s : List ℕ) → take n s ++ drop n s ≡ s
cut zero s = refl
cut (suc n) [] = refl
cut (suc n) (c ∷ cs) = ap (◌∷◌ c) (cut n cs)

take-front : (s t : List ℕ) → take (length s) (s ++ t) ≡ s
take-front [] t = refl
take-front (c ∷ cs) t = ap (◌∷◌ c) (take-front cs t)

drop-front : (s t : List ℕ) → drop (length s) (s ++ t) ≡ t
drop-front [] t = refl
drop-front (c ∷ cs) t = drop-front cs t

trim_prefix_str-front : (p s : List ℕ) → trim_prefix_str (p ++ s) p ≡ s
unfolding trim_prefix_str
trim_prefix_str-front p s =
    let long : ltb (length (p ++ s)) (length p) ≡ false = ground (arith, length-append p s) in
    rw (trim_prefix_str, long, take-front p s, string_equal_refl p) (drop-front p s)

trim_suffix_str-back : (s p : List ℕ) → trim_suffix_str (s ++ p) p ≡ s
unfolding trim_suffix_str
trim_suffix_str-back s p =
    let long : ltb (length (s ++ p)) (length p) ≡ false = ground (arith, length-append s p) in
    let kept : length (s ++ p) - length p ≡ length s = omega (arith, length-append s p) in
    rw (trim_suffix_str, long, kept, drop-front s p, string_equal_refl p) (take-front s p)

-- The text or nothing.
abbrev pub Cut : List ℕ → List ℕ → Type 0
Cut text part = (part ≡ []) ⊎ (part ≡ text)

trim_prefix_str-Cut : (s p : List ℕ) → (l : List ℕ) × Cut p l × (s ≡ l ++ trim_prefix_str s p)
unfolding trim_prefix_str
trim_prefix_str-Cut s p =
    elim (Bool-cases (ltb (length s) (length p) || not (string_equal (take (length p) s) p))) [
      | inl y ↦ ([], inl refl, rw (trim_prefix_str, y) refl)
      | inr n ↦
          let same : take (length p) s ≡ p =
            string_equal_sound (take (length p) s) p (ground (arith, n)) in
          (
            p,
            inr refl,
            rw (trim_prefix_str, n)
                (sym (cut (length p) s) ∙ ap (λ u. u ++ drop (length p) s) same),
          )
    ]

trim_suffix_str-Cut : (s p : List ℕ) → (r : List ℕ) × Cut p r × (s ≡ trim_suffix_str s p ++ r)
unfolding trim_suffix_str
trim_suffix_str-Cut s p =
    let k = length s - length p in
    elim (Bool-cases (ltb (length s) (length p) || not (string_equal (drop k s) p))) [
      | inl y ↦ ([], inl refl, rw (trim_suffix_str, y) (sym (append-nil s)))
      | inr n ↦
          let same : drop k s ≡ p = string_equal_sound (drop k s) p (ground (arith, n)) in
          (p, inr refl, rw (trim_suffix_str, n) (sym (cut k s) ∙ ap (λ u. take k s ++ u) same))
    ]

pub trim_str-Cut :
    (s text : List ℕ) → (l r : List ℕ) × Cut text l × Cut text r × (s ≡ l ++ (trim_str s text ++ r))
unfolding trim_str
trim_str-Cut [] text = ([], [], inl refl, inl refl, refl)
trim_str-Cut (c ∷ cs) text =
    let (r, cr, e) = trim_suffix_str-Cut (c ∷ cs) text in
    let inner = trim_suffix_str (c ∷ cs) text in
    let (l, cl, d) = trim_prefix_str-Cut inner text in
    (l, r, cl, cr, e ∙ ap (λ u. u ++ r) d ∙ append_assoc l (trim_prefix_str inner text) r)

-- A text that is wrapped comes out.
pub trim_str-wrapped : (s text : List ℕ) → trim_str (text ++ (s ++ text)) text ≡ s
unfolding trim_str
trim_str-wrapped [] [] = refl
trim_str-wrapped (c ∷ cs) [] =
    ap (λ u. trim_prefix_str u []) (trim_suffix_str-back (c ∷ cs) [])
    ∙ trim_prefix_str-front [] (c ∷ cs)
trim_str-wrapped s (t ∷ ts) =
    let text = t ∷ ts in
    ap (λ u. trim_prefix_str u text)
      (ap (λ v. trim_suffix_str v text) (sym (append_assoc text s text))
        ∙ trim_suffix_str-back (text ++ s) text)
    ∙ trim_prefix_str-front text s
