-- ===== src/Serialize/Macros/Counted.antt =====
-- The expansion of `JSON_FOR_EACH` is the list of the statements in order, up to 255 of them.
use cpp_lib.Prelude.{
  ℕ, zero, suc, ◌-◌, ◌≤◌, ◌<◌, ◌≡◌, refl, ◌∙◌, ap, true, Bool-cases, inl, inr, none, some, List, [],
  ◌∷◌, ◌++◌, map, length, get_elem?, leb, if◌then◌else◌, arith,
}
use cpp_lib.Serialize.Fields.{for_each}
use cpp_lib.Serialize.Macros.{
  arg, num, rseq_from, json_rseq_n, json_arg_n, json_narg, json_for_each_n, json_for_each_named,
  json_for_each,
}

get_elem?-rseq_from :
    {A : Type 0} (m i : ℕ) → i ≤ m → get_elem? (rseq_from {A = A} m) i ≡ some (num (m - i))
unfolding rseq_from
get_elem?-rseq_from zero zero h = refl
get_elem?-rseq_from zero (suc i) h = absurd (omega arith)
get_elem?-rseq_from (suc m) zero h = ap (λ k. some (num k)) (omega arith)
get_elem?-rseq_from {A} (suc m) (suc i) h =
    get_elem?-rseq_from {A = A} m i (omega arith) ∙ ap (λ k. some (num k)) (omega arith)

-- Behind as many arguments as fit, the number of the table.
lookup_number :
    {A : Type 0} (xs : List A) (m i : ℕ)
    → length xs ≤ i
    → i - length xs ≤ m
    → get_elem? (map arg xs ++ rseq_from m) i ≡ some (num (m - (i - length xs)))
lookup_number {A} [] m i h g =
    get_elem?-rseq_from {A = A} m i (omega arith) ∙ ap (λ k. some (num k)) (omega arith)
lookup_number (x ∷ xs) m zero h g = absurd (omega arith)
lookup_number (x ∷ xs) m (suc i) h g =
    lookup_number xs m i (omega arith) (omega arith) ∙ ap (λ k. some (num k)) (omega arith)

-- Otherwise one of the arguments.
lookup_argument :
    {A : Type 0} (xs : List A) (m i : ℕ)
    → i < length xs
    → (x : A) × (get_elem? (map arg xs ++ rseq_from m) i ≡ some (arg x))
lookup_argument [] m i h = absurd (omega arith)
lookup_argument (x ∷ xs) m zero h = (x, refl)
lookup_argument (x ∷ xs) m (suc i) h = lookup_argument xs m i (omega arith)

json_for_each_n-length :
    {A S : Type 0} (what : A → S → S) (x : A) (xs : List A) (s : S)
    → json_for_each_n (length (x ∷ xs)) what (x ∷ xs) s ≡ some (for_each what (x ∷ xs) s)
unfolding json_for_each_n for_each
json_for_each_n-length what x [] s = refl
json_for_each_n-length what x (y ∷ ys) s = json_for_each_n-length what y ys (what x s)

json_narg-length :
    {A : Type 0} (xs : List A) → length xs ≤ 255 → json_narg xs ≡ some (num (length xs))
unfolding json_narg json_arg_n json_rseq_n
json_narg-length xs h =
    lookup_number xs 255 255 h (omega arith) ∙ ap (λ k. some (num k)) (omega arith)

json_narg_argument :
    {A : Type 0} (xs : List A) → 255 < length xs → (x : A) × (json_narg xs ≡ some (arg x))
unfolding json_narg json_arg_n json_rseq_n
json_narg_argument xs h = lookup_argument xs 255 255 h

-- For one argument or more, `JSON_FOR_EACH` expands to the statements for the arguments in their
-- order if there are at most 255 of them, and otherwise to no program.
pub json_for_each-for_each :
    {A S : Type 0} (what : A → S → S) (x : A) (xs : List A) (s : S)
    → json_for_each what (x ∷ xs) s
      ≡ (if leb (length (x ∷ xs)) 255 then some (for_each what (x ∷ xs) s) else none)
unfolding json_for_each json_for_each_named
json_for_each-for_each what x xs s = elim (Bool-cases (leb (length (x ∷ xs)) 255)) [
  | inl y ↦
      let h : length (x ∷ xs) ≤ 255 = ground arith in
      let fits : leb (length (x ∷ xs)) 256 ≡ true = ground arith in
      rw (y, json_for_each, json_narg-length (x ∷ xs) h, fits) (json_for_each_n-length what x xs s)
  | inr n ↦ rw (n, json_for_each, (json_narg_argument (x ∷ xs) (ground arith)).1) refl
]
