-- ===== src/Util/Singleton/Lifetimes.antt =====
-- `GetInstance` after the handler of `atexit` in cpp_lib/util/singleton.h, under each policy.
use cpp_lib.Prelude.{ℕ, zero, suc, ◌+◌, ◌≡◌, refl, Bool, true, false, Option, none, some}
use cpp_lib.Util.Singleton.{
  Lifetime, default_lifetime, phoneix_lifetime, no_destroy_lifetime, Statics, Pc, start, returned,
  aborted, move, dead_reference, schedule_destruction, destroy_singleton,
}

-- A thread that runs alone, for at most the number of steps.
unfoldable pub alone : (ℕ → ℕ) → Lifetime → ℕ → Pc → Statics → Pc × Statics
alone create life zero q m = (q, m)
alone create life (suc n) q m = elim (move create life q m) [
  | none ↦ (q, m)
  | some (q', m') ↦ alone create life n q' m'
]

unfoldable pub alone_after : (ℕ → ℕ) → Lifetime → Option Statics → Option (Pc × Statics)
alone_after create life none = none
alone_after create life (some m) = some (alone create life 9 start m)

pub destroy_singleton-recreated :
    (create : ℕ → ℕ) (p c n d : ℕ) (once : Bool)
    → let up : Statics = record {
      mutex = false;
      instance_ptr = some p;
      destroyed = false;
      destroyed_once = once;
      created = c;
      scheduled = n;
      deleted = d;
    } in
      let again : Bool → Statics = λ b. record {
        mutex = false;
        instance_ptr = some (create c);
        destroyed = false;
        destroyed_once = b;
        created = c + 1;
        scheduled = n;
        deleted = d + 1;
      } in
      let down : Statics = record {
        mutex = true;
        instance_ptr = none;
        destroyed = true;
        destroyed_once = once;
        created = c;
        scheduled = n;
        deleted = d + 1;
      } in
      (alone_after create default_lifetime (destroy_singleton up) ≡ some (aborted, down))
      × (alone_after create phoneix_lifetime (destroy_singleton up)
          ≡ some (returned (create c), again true))
      × (alone_after create no_destroy_lifetime (destroy_singleton up)
          ≡ some (returned (create c), again once))
unfolding alone_after alone move destroy_singleton dead_reference schedule_destruction
destroy_singleton-recreated create p c n d once = (refl, refl, refl)
