-- ===== src/Serialize/Macros.antt =====
-- `JSON_FOR_EACH` of cpp_lib/serialize/json.h as the preprocessor expands it: the number of the
-- arguments is looked up, and names the macro that writes the statements. `none` is an expansion
-- that is no program.
pub mod Counted
use cpp_lib.Prelude.{
  ℕ, zero, suc, Bool, Option, none, some, List, [], ◌∷◌, ◌++◌, map, leb, get_elem?, if◌then◌else◌,
}

-- What stands between two commas: an argument of the macro, or a number of `JSON_RSEQ_N`.
pub data Token (A : Type 0) : Type 0 where
  arg : A → Token A
  num : ℕ → Token A

-- The numbers from `n` down to 0.
unfoldable pub rseq_from : {A : Type 0} → ℕ → List (Token A)
rseq_from zero = num 0 ∷ []
rseq_from (suc n) = num (suc n) ∷ rseq_from n

unfoldable pub json_rseq_n : {A : Type 0} → List (Token A)
json_rseq_n = rseq_from 255

-- `JSON_ARG_N`: the argument behind 255 others.
unfoldable pub json_arg_n : {A : Type 0} → List (Token A) → Option (Token A)
json_arg_n args = get_elem? args 255

-- `JSON_NARG_`
unfoldable pub json_narg : {A : Type 0} → List A → Option (Token A)
json_narg args = json_arg_n (map arg args ++ json_rseq_n)

-- `JSON_FOR_EACH_1`, `JSON_FOR_EACH_2` and so on: the last one drops the arguments it has left.
unfoldable pub json_for_each_n : {A S : Type 0} → ℕ → (A → S → S) → List A → S → Option S
json_for_each_n zero what xs s = none
json_for_each_n (suc n) what [] s = none
json_for_each_n (suc zero) what (x ∷ xs) s = some (what x s)
json_for_each_n (suc (suc n)) what (x ∷ xs) s = json_for_each_n (suc n) what xs (what x s)

-- `JSON_FOR_EACH_`: the name ends in a number up to 256, or in the text of an argument, and then
-- there is no such macro.
unfoldable pub json_for_each_named : {A S : Type 0} → Token A → (A → S → S) → List A → S → Option S
json_for_each_named (arg x) what xs s = none
json_for_each_named (num n) what xs s =
    let expanded = json_for_each_n n what xs s in if leb n 256 then expanded else none

unfoldable pub json_for_each : {A S : Type 0} → (A → S → S) → List A → S → Option S
json_for_each what xs s = elim (json_narg xs) [
  | none ↦ none
  | some n ↦ json_for_each_named n what xs s
]
