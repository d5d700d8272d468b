-- ===== src/Coro/Join/Calls.antt =====
-- `ParallelFor` of cpp_lib/coro/coro.cc in any interleaving of its threads: which calls have been
-- made when it returns, and that it can return.
use cpp_lib.Prelude.{
  ℕ, ◌+◌, ◌≤◌, ◌<◌, ◌≡◌, refl, ap, ◌∙◌, Bool, true, false, ◌||◌, Bool-cases, inl, inr, Option, none,
  some, List, [], ◌∷◌, ◌++◌, length, ltb, ◌==◌, update, if◌then◌else◌, arith,
}
use cpp_lib.Coro.{Part}
use cpp_lib.Coro.Join.{
  Coro, start_coro_func, start_all, coro_join, State, start, Step, call_ends, joined, Reach, here,
  next,
}

abbrev pub count : ℕ → List ℕ → ℕ
count i [] = 0
count i (j ∷ js) = (if j == i then 1 else 0) + count i js

count-snoc : (i j : ℕ) (js : List ℕ) → count i (js ++ (j ∷ [])) ≡ count i js + count i (j ∷ [])
count-snoc i j [] = omega arith
count-snoc i j (k ∷ ks) = omega (arith, count-snoc i j ks)

-- A task for thread `i` is among the tasks.
abbrev is_for : ℕ → Option Coro → Bool
is_for i none = false
is_for i (some coro) = elim (coro.thread) [ none ↦ false | some j ↦ j == i ]

abbrev waits_for : ℕ → List (Option Coro) → Bool
waits_for i [] = false
waits_for i (task ∷ tasks) = is_for i task || waits_for i tasks

-- Each call that has ended has ended once, and every other one is still waited for.
record Consistent (n : ℕ) (s : State) : Type 0 where
  once : (i : ℕ) → count i s.calls ≡ (if s.ended i then 1 else 0)
  known : (i : ℕ) → s.ended i ≡ true → i < n
  waiting : (i : ℕ) → i < n → s.ended i ≡ false → waits_for i s.tasks ≡ true
  bounded : (i : ℕ) → waits_for i s.tasks ≡ true → i < n

start_all-waits :
    (parts : List Part) (i j : ℕ)
    → i ≤ j
    → j < i + length parts
    → waits_for j (start_all i parts) ≡ true
unfolding start_all start_coro_func
start_all-waits [] i j h g = absurd (omega arith)
start_all-waits (p ∷ parts) i j h g = elim (Bool-cases (i == j)) [
  | inl y ↦ rw y refl
  | inr n ↦ rw n (start_all-waits parts (i + 1) j (ground arith) (omega arith))
]

start_all-bounded :
    (parts : List Part) (i j : ℕ) → waits_for j (start_all i parts) ≡ true → j < i + length parts
unfolding start_all start_coro_func
start_all-bounded [] i j h = absurd (ground arith)
start_all-bounded (p ∷ parts) i j h = elim (Bool-cases (i == j)) [
  | inl y ↦ ground arith
  | inr n ↦ omega (arith, start_all-bounded parts (i + 1) j (ground arith))
]

behind :
    (i : ℕ) (task : Option Coro) (rest : List (Option Coro))
    → waits_for i rest ≡ true
    → waits_for i (task ∷ rest) ≡ true
behind i task rest h = elim (Bool-cases (is_for i task)) [ inl y ↦ rw y refl | inr n ↦ rw n h ]

start-Consistent : (parts : List Part) → Consistent (length parts) (start parts)
unfolding start
start-Consistent parts = record {
  once = λ i. refl;
  known = λ i h. absurd (ground arith);
  waiting = λ i lt h. start_all-waits parts 0 i (omega arith) (omega arith);
  bounded = λ i w. omega (arith, start_all-bounded parts 0 i w);
}

thread_not_for :
    (ended : ℕ → Bool) (thread : Option ℕ) (i : ℕ)
    → (elim thread [ none ↦ true | some j ↦ ended j ]) ≡ true
    → ended i ≡ false
    → (elim thread [ none ↦ false | some j ↦ j == i ]) ≡ false
thread_not_for ended none i h e = refl
thread_not_for ended (some j) i h e = elim (Bool-cases (j == i)) [
  | inl y ↦ let same : j ≡ i = ground arith in absurd (ground (arith, ap ended same))
  | inr n ↦ n
]

-- The task that has been joined is not for a call that still runs.
not_for :
    (ended : ℕ → Bool) (task : Option Coro) (i : ℕ)
    → coro_join ended task ≡ true
    → ended i ≡ false
    → is_for i task ≡ false
unfolding coro_join
not_for ended none i h e = refl
not_for ended (some coro) i h e = thread_not_for ended coro.thread i h e

Step-Consistent : (n : ℕ) {s t : State} → Step n s t → Consistent n s → Consistent n t
Step-Consistent n (call_ends s i lt run) c = record {
  once = λ j. grind (arith, count-snoc j i s.calls, c.once j);
  known = λ j h. ground (arith, c.known j);
  waiting = λ j l h. ground (arith, c.waiting j);
  bounded = c.bounded;
}
Step-Consistent n (joined s task rest e h) c = record {
  once = c.once;
  known = c.known;
  waiting = λ i lt run.
      ground (arith, ap (waits_for i) e, c.waiting i lt run, not_for s.ended task i h run);
  bounded = λ i w. c.bounded i (ap (waits_for i) e ∙ behind i task rest w);
}

Reach-Consistent : (n : ℕ) {s t : State} → Reach n s t → Consistent n s → Consistent n t
Reach-Consistent n here c = c
Reach-Consistent n (next r st) c = Step-Consistent n st (Reach-Consistent n r c)

-- Whatever the order in which the threads of `ParallelFor` end their calls and `CoroJoin`
-- returns, when the last task has been joined the call for each part has been made and ended
-- once, and no other call.
pub Reach-once :
    (parts : List Part) (s : State)
    → Reach (length parts) (start parts) s
    → s.tasks ≡ []
    → (i : ℕ) → count i s.calls ≡ (if ltb i (length parts) then 1 else 0)
Reach-once parts s r done i =
    let c = Reach-Consistent (length parts) r (start-Consistent parts) in
    elim (Bool-cases (s.ended i)) [
      | inl y ↦ ground (arith, c.once i, y, c.known i y)
      | inr n ↦
          ground
            (arith, c.once i, n, ap (waits_for i) done, λ (lt : i < length parts). c.waiting i lt n)
    ]

Reach-trans : (n : ℕ) {s t u : State} → Reach n s t → Reach n t u → Reach n s u
Reach-trans n r here = r
Reach-trans n r (next q st) = next (Reach-trans n r q) st

thread_blocked :
    (ended : ℕ → Bool) (thread : Option ℕ)
    → (elim thread [ none ↦ true | some j ↦ ended j ]) ≡ false
    → (i : ℕ) × ((elim thread [ none ↦ false | some j ↦ j == i ]) ≡ true)
      × (ended i ≡ false)
      × ((elim thread [ none ↦ true | some j ↦ update ended i true j ]) ≡ true)
thread_blocked ended none h = cc
thread_blocked ended (some j) h = (j, ground arith, h, ground arith)

-- A `CoroJoin` that does not return waits for a call that runs, and returns at its end.
blocked_on :
    (ended : ℕ → Bool) (task : Option Coro)
    → coro_join ended task ≡ false
    → (i : ℕ) × (is_for i task ≡ true)
      × (ended i ≡ false)
      × (coro_join (update ended i true) task ≡ true)
unfolding coro_join
blocked_on ended none h = cc
blocked_on ended (some coro) h = thread_blocked ended coro.thread h

-- From a state whose tasks are `tasks`, the loop can end.
join_all :
    (n : ℕ) (tasks : List (Option Coro)) (s : State)
    → Consistent n s
    → s.tasks ≡ tasks
    → (t : State) × Reach n s t × (t.tasks ≡ [])
join_all n [] s c e = (s, here, e)
join_all n (task ∷ rest) s c e = elim (Bool-cases (coro_join s.ended task)) [
  | inl ready ↦
      let st : Step n s (record s { tasks = rest }) = joined s task rest e ready in
      let (t, r, done) =
        join_all n rest (record s { tasks = rest }) (Step-Consistent n st c) refl in
      (t, Reach-trans n (next here st) r, done)
  | inr blocked ↦
      let (i, mine, running, then_ready) = blocked_on s.ended task blocked in
      let lt : i < n = c.bounded i (ap (waits_for i) e ∙ rw mine refl) in
      let s' : State = record s { ended = update s.ended i true; calls = s.calls ++ (i ∷ []) } in
      let first : Step n s s' = call_ends s i lt running in
      let st : Step n s' (record s' { tasks = rest }) = joined s' task rest e then_ready in
      let c' = Step-Consistent n st (Step-Consistent n first c) in
      let (t, r, done) = join_all n rest (record s' { tasks = rest }) c' refl in
      (t, Reach-trans n (next (next here first) st) r, done)
]

-- From every state that the threads of `ParallelFor` and its joins reach there are further steps
-- to a state in which the last task has been joined.
pub Reach-returns :
    (parts : List Part) (s : State)
    → Reach (length parts) (start parts) s
    → (t : State) × Reach (length parts) s t × (t.tasks ≡ [])
Reach-returns parts s r =
    join_all (length parts) s.tasks s (Reach-Consistent (length parts) r (start-Consistent parts))
      refl
