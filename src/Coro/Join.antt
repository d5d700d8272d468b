-- ===== src/Coro/Join.antt =====
-- The threads of `ParallelFor` of cpp_lib/coro/coro.cc: `StartCoroFunc` for each part, and the loop
-- of `CoroJoin`. Thread `i` makes the call of `func` for part `i`; a step is the end of one of
-- these calls, or a `CoroJoin` that returns.
pub mod Calls
use cpp_lib.Prelude.{
  ℕ, zero, suc, ◌+◌, ◌≤◌, ◌<◌, ◌≡◌, refl, ap, ◌∙◌, sym, Bool, true, false, ◌||◌, Bool-cases, inl,
  inr, Option, none, some, List, [], ◌∷◌, ◌++◌, length, ltb, ◌==◌, update, if◌then◌else◌, arith,
}
use cpp_lib.Coro.{Part}

pub record Coro : Type 0 where
  pub thread : Option ℕ

-- A `CoroPtr` to a new thread, by its number.
unfoldable pub start_coro_func : ℕ → Option Coro
start_coro_func i = some (record { thread = some i })

-- `tasks`, from thread `i` on.
unfoldable pub start_all : ℕ → List Part → List (Option Coro)
start_all i [] = []
start_all i (p ∷ parts) = start_coro_func i ∷ start_all (i + 1) parts

-- Whether `CoroJoin` returns: at once without a thread, and otherwise when the call has ended.
unfoldable pub coro_join : (ℕ → Bool) → Option Coro → Bool
coro_join ended none = true
coro_join ended (some coro) = elim (coro.thread) [ none ↦ true | some i ↦ ended i ]

-- The calls that have ended, also in their order, and the tasks that are left to join.
pub record State : Type 0 where
  pub ended : ℕ → Bool
  pub calls : List ℕ
  pub tasks : List (Option Coro)

unfoldable pub start : List Part → State
start parts = record { ended = λ i. false; calls = []; tasks = start_all 0 parts }

pub data Step (n : ℕ) : State → State → Type 0 where
  call_ends :
      (s : State) (i : ℕ)
      → i < n
      → s.ended i ≡ false
      → Step n s (record s { ended = update s.ended i true; calls = s.calls ++ (i ∷ []) })
  joined :
      (s : State) (task : Option Coro) (rest : List (Option Coro))
      → s.tasks ≡ task ∷ rest
      → coro_join s.ended task ≡ true
      → Step n s (record s { tasks = rest })

pub data Reach (n : ℕ) (s : State) : State → Type 0 where
  here : Reach n s s
  next : {t u : State} → Reach n s t → Step n t u → Reach n s u
