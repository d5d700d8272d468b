-- ===== src/Tests/Singletons.antt =====
-- The theorems on cpp_lib/util/singleton.h at concrete inputs.
use cpp_lib.Prelude.{ℕ, ◌+◌, ◌≤◌, ◌≡◌, refl, Bool, Option, none, some, List, [], ◌∷◌, ◌++◌, length}
use cpp_lib.Util.Singleton.{
  default_lifetime, Statics, returned, move, schedule_destruction, System, init, step, run,
}
use cpp_lib.Util.Singleton.Once.{run-once}
use cpp_lib.Util.Singleton.Progress.{run_returns}

abbrev heap : ℕ → ℕ
heap n = n + 4096

-- Two threads both miss; the one that comes second to the lock finds the object.
abbrev both_miss : List ℕ
both_miss = 0 ∷ 1 ∷ 0 ∷ 0 ∷ 0 ∷ 0 ∷ 0 ∷ 0 ∷ 0 ∷ 1 ∷ 1 ∷ 1 ∷ []

abbrev last_of : Option System → System
last_of none = init
last_of (some s) = s

unfoldable after : System
after = last_of (run heap default_lifetime both_miss init)

after-run : run heap default_lifetime both_miss init ≡ some after
unfolding after run step move schedule_destruction
after-run = refl

first_returned : after.pcs 0 ≡ returned 4096
unfolding after run step move schedule_destruction
first_returned = refl

second_returned : after.pcs 1 ≡ returned 4096
unfolding after run step move schedule_destruction
second_returned = refl

run-once_example :
    let shared : ℕ = 4096 in
    (shared ≡ shared)
    × (shared ≡ heap 0)
    × (after.statics.instance_ptr ≡ some shared)
    × (after.statics.created ≡ 1)
run-once_example =
    run-once heap default_lifetime both_miss after 0 1 4096 4096 after-run first_returned
      second_returned

-- The first thread is about to store while the second waits.
abbrev waiting : List ℕ
waiting = 0 ∷ 1 ∷ 0 ∷ 0 ∷ 0 ∷ 0 ∷ []

unfoldable midway : System
midway = last_of (run heap default_lifetime waiting init)

midway-run : run heap default_lifetime waiting init ≡ some midway
unfolding midway run step move schedule_destruction
midway-run = refl

run_returns_example :
    (us : List ℕ) × (s' : System) × (p : ℕ) × (length us ≤ 14)
    × (run heap default_lifetime (waiting ++ us) init ≡ some s')
    × (s'.pcs 1 ≡ returned p)
    × (p ≡ 4096)
run_returns_example = run_returns heap default_lifetime waiting midway 1 midway-run

abbrev statics : Bool → Bool → Option ℕ → Bool → ℕ → ℕ → Statics
statics mutex destroyed p once created deleted = record {
  mutex = mutex;
  instance_ptr = p;
  destroyed = destroyed;
  destroyed_once = once;
  created = created;
  scheduled = 1;
  deleted = deleted;
}
