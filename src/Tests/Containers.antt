-- ===== src/Tests/Containers.antt =====
-- The theorems on cpp_lib/container and cpp_lib/coro at concrete inputs.
use cpp_lib.Prelude.{
  ◌≡◌, refl, true, false, some, none, List, [], ◌∷◌, update, ltb, if◌then◌else◌, arith,
}
use cpp_lib.Coro.Join.{
  State, start, start_all, start_coro_func, coro_join, call_ends, joined, Reach, here, next,
}
use cpp_lib.Coro.Join.Calls.{count, Reach-once, Reach-returns}
use cpp_lib.Coro.{Part, parallel_for, Covers, parallel_for-Covers, parallel_for_zero}

parallel_for-Covers_example :
    (parts : List Part) × (parallel_for 11 5 15 4 ≡ some parts) × Covers 5 15 4 parts
parallel_for-Covers_example = parallel_for-Covers 5 15 4 (omega arith) (omega arith) (omega arith)

parallel_for_zero_example : parallel_for 1000 5 15 0 ≡ none
parallel_for_zero_example = parallel_for_zero 1000 5 15 (omega arith) (omega arith)

abbrev one_part : List Part
one_part = record { start = 0; stop = 4 } ∷ []

-- The thread of the part has ended, and has been joined.
abbrev ended : State
ended = record (start one_part) { ended = update (λ i. false) 0 true; calls = 0 ∷ [] }

abbrev returned : State
returned = record ended { tasks = [] }

returned-Reach : Reach 1 (start one_part) returned
unfolding start start_all coro_join start_coro_func
returned-Reach =
    next (next here (call_ends (start one_part) 0 (omega arith) refl))
      (joined ended (start_coro_func 0) [] refl refl)

Reach-once_example : count 0 returned.calls ≡ (if ltb 0 1 then 1 else 0)
Reach-once_example = Reach-once one_part returned returned-Reach refl 0

Reach-returns_example : (t : State) × Reach 1 (start one_part) t × (t.tasks ≡ [])
Reach-returns_example = Reach-returns one_part (start one_part) here
