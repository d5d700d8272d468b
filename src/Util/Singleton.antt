-- ===== src/Util/Singleton.antt =====
-- cpp_lib/util/singleton.h: threads that call `GetInstance`, one atomic access at a time, with the
-- accesses in one order. `create` of `n` is the address that the call `n` of the policy's `Create`
-- gives: the heap's for `CreateUsingNew`, always the same for `CreateStatic`.
pub mod Knowledge
pub mod Once
pub mod Progress
pub mod Lifetimes
use cpp_lib.Prelude.{
  ℕ, zero, suc, ◌+◌, Bool, true, false, Option, none, some, List, [], ◌∷◌, if◌then◌else◌, update,
}

pub data Lifetime : Type 0 where
  default_lifetime phoneix_lifetime no_destroy_lifetime : Lifetime

-- The static members, with the calls of `Create`, of `atexit` and of `Destroy` on an object so far.
pub record Statics : Type 0 where
  pub mutex : Bool
  pub instance_ptr : Option ℕ
  pub destroyed : Bool
  pub destroyed_once : Bool  -- of `PhoneixLifetime`
  pub created : ℕ
  pub scheduled : ℕ
  pub deleted : ℕ

abbrev pub init_statics : Statics
init_statics = record {
  mutex = false;
  instance_ptr = none;
  destroyed = false;
  destroyed_once = false;
  created = 0;
  scheduled = 0;
  deleted = 0;
}

-- `none` where the assertion fails.
unfoldable pub dead_reference : Lifetime → Statics → Option Statics
dead_reference default_lifetime m = none
dead_reference phoneix_lifetime m = some (record m { destroyed_once = true })
dead_reference no_destroy_lifetime m = some m

unfoldable pub schedule_destruction : Lifetime → Statics → Statics
schedule_destruction default_lifetime m = record m { scheduled = m.scheduled + 1 }
schedule_destruction phoneix_lifetime m =
    if m.destroyed_once then m else record m { scheduled = m.scheduled + 1 }
schedule_destruction no_destroy_lifetime m = m

-- Where a thread stands in `GetInstance`, with `tmp` once it is not null.
pub data Pc : Type 0 where
  start : Pc  -- before the first load
  missed : Pc  -- before the lock
  holding : Pc  -- before the load under the lock
  unset : Pc  -- before the load of `destroyed_`
  reviving : Pc  -- before `DeadReference`
  creating : Pc
  storing : ℕ → Pc
  scheduling : ℕ → Pc
  leaving : ℕ → Pc  -- before the unlock
  returned : ℕ → Pc
  aborted : Pc

unfoldable pub move : (ℕ → ℕ) → Lifetime → Pc → Statics → Option (Pc × Statics)
move create life start m = elim (m.instance_ptr) [
  | none ↦ some (missed, m)
  | some p ↦ some (returned p, m)
]
move create life missed m = if m.mutex then none else some (holding, record m { mutex = true })
move create life holding m = elim (m.instance_ptr) [
  | none ↦ some (unset, m)
  | some p ↦ some (leaving p, m)
]
move create life unset m = if m.destroyed then some (reviving, m) else some (creating, m)
move create life reviving m = elim (dead_reference life m) [
  | none ↦ some (aborted, m)
  | some m' ↦ some (creating, record m' { destroyed = false })
]
move create life creating m =
    some (storing (create m.created), record m { created = m.created + 1 })
move create life (storing p) m = some (scheduling p, record m { instance_ptr = some p })
move create life (scheduling p) m = some (leaving p, schedule_destruction life m)
move create life (leaving p) m = some (returned p, record m { mutex = false })
move create life (returned p) m = none
move create life aborted m = none

-- The handler of `atexit`. `none` where the assertion fails.
unfoldable pub destroy_singleton : Statics → Option Statics
destroy_singleton m = if m.destroyed then none else elim (m.instance_ptr) [
  | none ↦ some (record m { destroyed = true })
  | some p ↦ some (record m { instance_ptr = none; destroyed = true; deleted = m.deleted + 1 })
]

pub record System : Type 0 where
  pub statics : Statics
  pub pcs : ℕ → Pc

abbrev pub init : System
init = record { statics = init_statics; pcs = λ t. start }

-- One step of the thread, `none` if it is blocked or has ended.
unfoldable pub step : (ℕ → ℕ) → Lifetime → ℕ → System → Option System
step create life t s = elim (move create life (s.pcs t) s.statics) [
  | none ↦ none
  | some (p, m) ↦ some (record { statics = m; pcs = update s.pcs t p })
]

-- The steps of the threads of the schedule, in its order.
unfoldable pub run : (ℕ → ℕ) → Lifetime → List ℕ → System → Option System
run create life [] s = some s
run create life (t ∷ ts) s = elim (step create life t s) [
  | none ↦ none
  | some s' ↦ run create life ts s'
]
