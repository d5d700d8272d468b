-- ===== src/Util/Trim/Lines.antt =====
-- `TrimEmptyLines` of cpp_lib/util/strings/trim.cc, line by line.
use mathlib.Core.List.{append-nil, append_assoc}
use cpp_lib.Prelude.{
  ℕ, ◌≡◌, refl, sym, ap, ◌∙◌, ◌⊎◌, Bool, true, false, not, Bool-cases, inl, inr, List, [], ◌∷◌,
  ◌++◌, ◌==◌, if◌then◌else◌, arith, All, has,
}
use cpp_lib.Util.Trim.{trim_right_white_space, get_lines, append_lines, trim_empty_lines}
use cpp_lib.Util.Trim.Margins.{starts_clean, ends_clean}
use cpp_lib.Util.Trim.Whole.{trimmed, trimmed-clean, left-whole, right-whole}

-- The lines that are neither empty nor comments, without their margins.
pub kept : List (List ℕ) → List (List ℕ)
kept [] = []
kept (line ∷ lines) =
    let rest = kept lines in
    elim (trimmed line) [ [] ↦ rest | c ∷ cs ↦ if c == 35 then rest else (c ∷ cs) ∷ rest ]

pub unlines : List (List ℕ) → List ℕ
unlines [] = []
unlines (line ∷ lines) = line ++ (10 ∷ unlines lines)

-- The first byte is there, and no `#`.
abbrev pub starts_text : List ℕ → Bool
starts_text [] = false
starts_text (c ∷ cs) = not (c == 35)

-- A line that the loop keeps: not empty, no comment, no newline in it, no margins.
abbrev pub IsText : List ℕ → Type 0
IsText line =
    (has 10 line ≡ false)
    × (starts_text line ≡ true)
    × (starts_clean line ≡ true)
    × (ends_clean line ≡ true)

list_cases : (t : List ℕ) → (t ≡ []) ⊎ ((c : ℕ) × (cs : List ℕ) × (t ≡ c ∷ cs))
list_cases [] = inl refl
list_cases (c ∷ cs) = inr (c, cs, refl)

kept-none :
    (line : List ℕ) (lines : List (List ℕ)) → trimmed line ≡ [] → kept (line ∷ lines) ≡ kept lines
unfolding kept
kept-none line lines e = rw (e, kept) refl

kept-cons :
    (line : List ℕ) (lines : List (List ℕ)) (c : ℕ) (cs : List ℕ)
    → trimmed line ≡ c ∷ cs
    → kept (line ∷ lines) ≡ (if c == 35 then kept lines else (c ∷ cs) ∷ kept lines)
unfolding kept
kept-cons line lines c cs e = rw (e, kept) refl

append_lines-none :
    (line : List ℕ) (lines : List (List ℕ)) (text : List ℕ)
    → trimmed line ≡ []
    → append_lines (line ∷ lines) text ≡ append_lines lines text
unfolding append_lines trimmed
append_lines-none line lines text e = rw (e, append_lines) refl

append_lines-cons :
    (line : List ℕ) (lines : List (List ℕ)) (text : List ℕ) (c : ℕ) (cs : List ℕ)
    → trimmed line ≡ c ∷ cs
    → append_lines (line ∷ lines) text ≡ (
        if c == 35
        then append_lines lines text
        else append_lines lines (text ++ ((c ∷ cs) ++ (10 ∷ []))))
unfolding append_lines trimmed
append_lines-cons line lines text c cs e = rw (e, append_lines) refl

append_lines-kept :
    (lines : List (List ℕ)) (text : List ℕ) → append_lines lines text ≡ text ++ unlines (kept lines)
unfolding append_lines kept unlines
append_lines-kept [] text = sym (append-nil text)
append_lines-kept (line ∷ lines) text = elim (list_cases (trimmed line)) [
  | inl e ↦
      append_lines-none line lines text e
      ∙ append_lines-kept lines text
      ∙ ap (λ ls. text ++ unlines ls) (sym (kept-none line lines e))
  | inr (c, cs, e) ↦ elim (Bool-cases (c == 35)) [
    | inl comment ↦
        rw (append_lines-cons line lines text c cs e, kept-cons line lines c cs e, comment)
          (append_lines-kept lines text)
    | inr other ↦
        rw (append_lines-cons line lines text c cs e, kept-cons line lines c cs e, other)
          (append_lines-kept lines (text ++ ((c ∷ cs) ++ (10 ∷ [])))
            ∙ append_assoc text ((c ∷ cs) ++ (10 ∷ [])) (unlines (kept lines))
            ∙ ap (λ t. text ++ t) (append_assoc (c ∷ cs) (10 ∷ []) (unlines (kept lines))))
  ]
]

outside :
    (line : List ℕ) (c : ℕ)
    → has 10 line ≡ false
    → (c == 10) ≡ false
    → has 10 (line ++ (c ∷ [])) ≡ false
outside [] c h e = ground arith
outside (b ∷ line) c h e = ground (arith, outside line c (ground arith) e)

-- The lines of a string have no newline in them.
get_lines-All :
    (str line : List ℕ) → has 10 line ≡ false → All (λ l. has 10 l ≡ false) (get_lines line str)
get_lines-All [] [] h = tt
get_lines-All [] (b ∷ line) h = (h, tt)
get_lines-All (c ∷ cs) line h = elim (Bool-cases (c == 10)) [
  | inl e ↦ rw e (h, get_lines-All cs [] refl)
  | inr e ↦ rw e (get_lines-All cs (line ++ (c ∷ [])) (outside line c h e))
]

read_line :
    (before line rest : List ℕ)
    → has 10 line ≡ false
    → get_lines before (line ++ (10 ∷ rest)) ≡ (before ++ line) ∷ get_lines [] rest
read_line before [] rest h = ap (λ l. l ∷ get_lines [] rest) (sym (append-nil before))
read_line before (c ∷ line) rest h =
    let e : (c == 10) ≡ false = ground arith in
    rw e (
      read_line (before ++ (c ∷ [])) line rest (ground arith)
      ∙ ap (λ l. l ∷ get_lines [] rest) (append_assoc before (c ∷ []) line))

-- Lines that are written one after the other are read again.
get_lines-unlines :
    (lines : List (List ℕ))
    → All (λ l. has 10 l ≡ false) lines
    → get_lines [] (unlines lines) ≡ lines
unfolding unlines
get_lines-unlines [] h = refl
get_lines-unlines (line ∷ lines) h =
    read_line [] line (unlines lines) h.0 ∙ ap (◌∷◌ line) (get_lines-unlines lines h.1)

-- Exactly such lines are kept, and they are kept as they are.
kept-IsText : (lines : List (List ℕ)) → All (λ l. has 10 l ≡ false) lines → All IsText (kept lines)
unfolding kept
kept-IsText [] h = tt
kept-IsText (line ∷ lines) h = elim (list_cases (trimmed line)) [
  | inl e ↦ rw (kept-none line lines e) (kept-IsText lines h.1)
  | inr (c, cs, e) ↦ elim (Bool-cases (c == 35)) [
    | inl comment ↦ rw (kept-cons line lines c cs e, comment) (kept-IsText lines h.1)
    | inr other ↦
        let (inside, first, last) = trimmed-clean line h.0 in
        rw (kept-cons line lines c cs e, other)
          (
            (
              sym (ap (has 10) e) ∙ inside,
              ap not other,
              sym (ap starts_clean e) ∙ first,
              sym (ap ends_clean e) ∙ last,
            ),
            kept-IsText lines h.1,
          )
  ]
]

trimmed-whole : (line : List ℕ) → IsText line → trimmed line ≡ line
unfolding trimmed
trimmed-whole line h = ap trim_right_white_space (left-whole line h.2) ∙ right-whole line h.3

kept-whole : (lines : List (List ℕ)) → All IsText lines → kept lines ≡ lines
unfolding kept
kept-whole [] h = refl
kept-whole ([] ∷ lines) h = absurd (ground arith)
kept-whole ((c ∷ cs) ∷ lines) h =
    let e = trimmed-whole (c ∷ cs) h.0 in
    let other : (c == 35) ≡ false = ground arith in
    rw (kept-cons (c ∷ cs) lines c cs e, other) (ap (◌∷◌ (c ∷ cs)) (kept-whole lines h.1))

IsText-line : (lines : List (List ℕ)) → All IsText lines → All (λ l. has 10 l ≡ false) lines
IsText-line [] h = tt
IsText-line (line ∷ lines) h = (h.0.0, IsText-line lines h.1)

-- `TrimEmptyLines` gives lines that end in a newline each: those of the text without their
-- margins, as far as they are neither empty nor begin with `#`. None of them has margins left,
-- and a second `TrimEmptyLines` changes nothing.
pub trim_empty_lines-kept :
    (str : List ℕ)
    → (trim_empty_lines str ≡ unlines (kept (get_lines [] str)))
      × All IsText (kept (get_lines [] str))
      × (trim_empty_lines (trim_empty_lines str) ≡ trim_empty_lines str)
unfolding trim_empty_lines
trim_empty_lines-kept str =
    let ls = kept (get_lines [] str) in
    let once : append_lines (get_lines [] str) [] ≡ unlines ls =
      append_lines-kept (get_lines [] str) [] in
    let all = kept-IsText (get_lines [] str) (get_lines-All str [] refl) in
    let again = get_lines-unlines ls (IsText-line ls all) in
    (
      once,
      all,
      ap (λ t. append_lines (get_lines [] t) []) once
          ∙ ap (λ l. append_lines l []) again
          ∙ append_lines-kept ls []
          ∙ ap unlines (kept-whole ls all)
          ∙ sym once,
    )
