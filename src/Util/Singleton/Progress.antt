-- ===== src/Util/Singleton/Progress.antt =====
-- Every call of `GetInstance` of cpp_lib/util/singleton.h can end, whatever the others have done.
use mathlib.Core.Path.{subst}
use cpp_lib.Prelude.{
  ℕ, suc, ◌+◌, ◌≤◌, ◌≡◌, ◌≢◌, refl, ap, ◌∙◌, true, false, Bool-cases, Option, none, some,
  Option-cases, inl, inr, List, [], ◌∷◌, ◌++◌, length, length-append, if◌then◌else◌, update, arith,
}
use cpp_lib.Util.Singleton.{
  Lifetime, Statics, schedule_destruction, Pc, start, missed, holding, unset, reviving, creating,
  storing, scheduling, leaving, returned, aborted, move, System, init, step, run,
}
use cpp_lib.Util.Singleton.Knowledge.{owns, Knows, Sound}
use cpp_lib.Util.Singleton.Once.{run-Sound, init-Sound, run-once}

module _ (create : ℕ → ℕ) (life : Lifetime) where
  run-append :
      (ts us : List ℕ) (s s' : System)
      → run create life ts s ≡ some s'
      → run create life (ts ++ us) s ≡ run create life us s'
  unfolding run
  run-append [] us s s' h =
      ap (λ o. elim o [ none ↦ run create life us s | some x ↦ run create life us x ]) h
  run-append (t ∷ ts) us s s' h = elim (Option-cases (step create life t s)) [
    | inl e ↦ absurd (ground (arith, e, h))
    | inr (mid, e) ↦ rw (run, e) (run-append ts us mid s' (ground (arith, e, h)))
  ]

  -- In `n` steps the thread returns and leaves the lock free, while the others stand still.
  record Finishes (n t : ℕ) (s : System) : Type 0 where
    schedule : List ℕ
    last : System
    result : ℕ
    short : length schedule ≤ n
    ran : run create life schedule s ≡ some last
    ended : last.pcs t ≡ returned result
    unlocked : last.statics.mutex ≡ false
    others : (u : ℕ) → u ≢ t → last.pcs u ≡ s.pcs u

  stepped :
      (t : ℕ) (s : System) (p : Pc) (m : Statics)
      → move create life (s.pcs t) s.statics ≡ some (p, m)
      → step create life t s ≡ some (record { statics = m; pcs = update s.pcs t p })
  unfolding step
  stepped t s p m h = rw (step, h) refl

  update_self : (f : ℕ → Pc) (t : ℕ) (p : Pc) → update f t p t ≡ p
  update_self f t p = ground arith

  update_ne : (f : ℕ → Pc) (t u : ℕ) (p : Pc) → u ≢ t → update f t p u ≡ f u
  update_ne f t u p h = ground arith

  first :
      (n t : ℕ) (s : System) (q p : Pc) (m : Statics)
      → s.pcs t ≡ q
      → move create life q s.statics ≡ some (p, m)
      → Finishes n t (record { statics = m; pcs = update s.pcs t p })
      → Finishes (suc n) t s
  unfolding run
  first n t s q p m e h f = record {
    schedule = t ∷ f.schedule;
    last = f.last;
    result = f.result;
    short = omega (arith, f.short);
    ran = rw (run, stepped t s p m (ap (λ x. move create life x s.statics) e ∙ h)) f.ran;
    ended = f.ended;
    unlocked = f.unlocked;
    others = λ u ne. f.others u ne ∙ update_ne s.pcs t u p ne;
  }

  leaves : (t p : ℕ) (s : System) → s.pcs t ≡ leaving p → Finishes 1 t s
  unfolding move run
  leaves t p s e =
      first 0 t s (leaving p) (returned p) (record (s.statics) { mutex = false }) e refl
        record {
          schedule = [];
          last = record {
            statics = record (s.statics) { mutex = false };
            pcs = update s.pcs t (returned p);
          };
          result = p;
          short = omega arith;
          ran = refl;
          ended = update_self s.pcs t (returned p);
          unlocked = refl;
          others = λ u ne. refl;
        }

  schedules : (t p : ℕ) (s : System) → s.pcs t ≡ scheduling p → Finishes 2 t s
  unfolding move
  schedules t p s e =
      first 1 t s (scheduling p) (leaving p) (schedule_destruction life s.statics) e refl
        (leaves t p _ (update_self s.pcs t (leaving p)))

  stores : (t p : ℕ) (s : System) → s.pcs t ≡ storing p → Finishes 3 t s
  unfolding move
  stores t p s e =
      first 2 t s (storing p) (scheduling p) (record (s.statics) { instance_ptr = some p }) e refl
        (schedules t p _ (update_self s.pcs t (scheduling p)))

  creates : (t : ℕ) (s : System) → s.pcs t ≡ creating → Finishes 4 t s
  unfolding move
  creates t s e =
      let p = create s.statics.created in
      first 3 t s creating (storing p) (record (s.statics) { created = s.statics.created + 1 }) e
        refl (stores t p _ (update_self s.pcs t (storing p)))

  weaken : (m n t : ℕ) (s : System) → m ≤ n → Finishes m t s → Finishes n t s
  weaken m n t s h f = record {
    schedule = f.schedule;
    last = f.last;
    result = f.result;
    short = omega (arith, h, f.short);
    ran = f.ran;
    ended = f.ended;
    unlocked = f.unlocked;
    others = f.others;
  }

  sets : (t : ℕ) (s : System) → s.pcs t ≡ unset → s.statics.destroyed ≡ false → Finishes 5 t s
  unfolding move
  sets t s e d =
      let m = s.statics in
      first 4 t s unset creating m e
        (ap (λ b. if b then some (reviving, m) else some (creating, m)) d)
        (creates t _ (update_self s.pcs t creating))

  abbrev on : Statics → Option ℕ → Option (Pc × Statics)
  on m none = some (unset, m)
  on m (some p) = some (leaving p, m)

  holds : (t : ℕ) (s : System) → s.pcs t ≡ holding → s.statics.destroyed ≡ false → Finishes 6 t s
  unfolding move
  holds t s e d = elim (Option-cases s.statics.instance_ptr) [
    | inl o ↦
        first 5 t s holding unset s.statics e (ap (on s.statics) o)
          (sets t _ (update_self s.pcs t unset) d)
    | inr (p, o) ↦ weaken 2 6 t s (omega arith) (
        first 1 t s holding (leaving p) s.statics e (ap (on s.statics) o)
          (leaves t p _ (update_self s.pcs t (leaving p))))
  ]

  -- The thread that has the lock can go on to its end.
  owner_finishes :
      (t : ℕ) (s : System) (q : Pc) → Sound create s → s.pcs t ≡ q → owns q ≡ true → Finishes 6 t s
  owner_finishes t s start ok e o = absurd (ground arith)
  owner_finishes t s missed ok e o = absurd (ground arith)
  owner_finishes t s holding ok e o = holds t s e ok.free.living
  owner_finishes t s unset ok e o = weaken 5 6 t s (omega arith) (sets t s e ok.free.living)
  owner_finishes t s reviving ok e o =
      absurd (ground (arith, ok.free.living, subst (Knows create s.statics) e (ok.knows t)))
  owner_finishes t s creating ok e o = weaken 4 6 t s (omega arith) (creates t s e)
  owner_finishes t s (storing p) ok e o = weaken 3 6 t s (omega arith) (stores t p s e)
  owner_finishes t s (scheduling p) ok e o = weaken 2 6 t s (omega arith) (schedules t p s e)
  owner_finishes t s (leaving p) ok e o = weaken 1 6 t s (omega arith) (leaves t p s e)
  owner_finishes t s (returned p) ok e o = absurd (ground arith)
  owner_finishes t s aborted ok e o = absurd (ground arith)

  Returns : ℕ → ℕ → System → Type 0
  Returns n t s =
      (us : List ℕ) × (s' : System) × (p : ℕ) × (length us ≤ n)
      × (run create life us s ≡ some s')
      × (s'.pcs t ≡ returned p)

  enters :
      (t : ℕ) (s : System)
      → Sound create s
      → s.pcs t ≡ missed
      → s.statics.mutex ≡ false
      → Finishes 7 t s
  unfolding move
  enters t s ok e n =
      first 6 t s missed holding (record (s.statics) { mutex = true }) e
        (ap (λ b. if b then none else some (holding, record (s.statics) { mutex = true })) n)
        (holds t _ (update_self s.pcs t holding) ok.free.living)

  waits : (t : ℕ) (s : System) → Sound create s → s.pcs t ≡ missed → Returns 13 t s
  unfolding Returns
  waits t s ok e = elim (Bool-cases s.statics.mutex) [
    | inl y ↦
        let (u, own) = ok.owner y in
        let f = owner_finishes u s (s.pcs u) ok refl own in
        let there : f.last.pcs t ≡ missed =
          f.others t
            (λ same. absurd (ground (arith, own, ap (λ x. owns (s.pcs x)) same, ap owns e)))
          ∙ e in
        let g =
          enters t f.last (run-Sound create life f.schedule s f.last ok f.ran) there f.unlocked in
        (
          f.schedule ++ g.schedule,
          g.last,
          g.result,
          omega (arith, length-append f.schedule g.schedule, f.short, g.short),
          run-append f.schedule g.schedule s f.last f.ran ∙ g.ran,
          g.ended,
        )
    | inr n ↦
        let g = enters t s ok e n in
        (g.schedule, g.last, g.result, omega (arith, g.short), g.ran, g.ended)
  ]

  abbrev seen : Statics → Option ℕ → Option (Pc × Statics)
  seen m none = some (missed, m)
  seen m (some p) = some (returned p, m)

  starts : (t : ℕ) (s : System) → Sound create s → s.pcs t ≡ start → Returns 14 t s
  unfolding Returns move run
  starts t s ok e = elim (Option-cases s.statics.instance_ptr) [
    | inl o ↦
        let s1 : System = record { statics = s.statics; pcs = update s.pcs t missed } in
        let one =
          stepped t s missed s.statics
            (ap (λ x. move create life x s.statics) e ∙ ap (seen s.statics) o) in
        let ran : run create life (t ∷ []) s ≡ some s1 = rw (run, one) refl in
        let (us, s', p, short, rest, done) =
          waits t s1 (run-Sound create life (t ∷ []) s s1 ok ran) (update_self s.pcs t missed) in
        (t ∷ us, s', p, omega (arith, short), run-append (t ∷ []) us s s1 ran ∙ rest, done)
    | inr (p, o) ↦
        let s1 : System = record { statics = s.statics; pcs = update s.pcs t (returned p) } in
        let one =
          stepped t s (returned p) s.statics
            (ap (λ x. move create life x s.statics) e ∙ ap (seen s.statics) o) in
        (t ∷ [], s1, p, omega arith, rw (run, one) refl, update_self s.pcs t (returned p))
  ]

  from : (t : ℕ) (s : System) (q : Pc) → Sound create s → s.pcs t ≡ q → Returns 14 t s
  unfolding Returns run
  from t s start ok e = starts t s ok e
  from t s missed ok e =
      let (us, s', p, short, ran, done) = waits t s ok e in
      (us, s', p, omega (arith, short), ran, done)
  from t s (returned p) ok e = ([], s, p, omega arith, refl, e)
  from t s aborted ok e =
      absurd (ground (arith, ok.free.living, subst (Knows create s.statics) e (ok.knows t)))
  from t s _ ok e =
      let f = owner_finishes t s _ ok e (ground arith) in
      (f.schedule, f.last, f.result, omega (arith, f.short), f.ran, f.ended)

  -- From every state that an interleaving of `GetInstance` calls reaches before the handler of
  -- `atexit` runs, there are at most 14 more steps after which a given thread has returned, with
  -- the address of the first object.
  pub run_returns :
      (ts : List ℕ) (s : System) (t : ℕ)
      → run create life ts init ≡ some s
      → (us : List ℕ) × (s' : System) × (p : ℕ) × (length us ≤ 14)
        × (run create life (ts ++ us) init ≡ some s')
        × (s'.pcs t ≡ returned p)
        × (p ≡ create 0)
  unfolding Returns
  run_returns ts s t h =
      let (us, s', p, short, ran, done) =
        from t s (s.pcs t) (run-Sound create life ts init s (init-Sound create) h) refl in
      let all = run-append ts us init s h ∙ ran in
      (us, s', p, short, all, done, (run-once create life (ts ++ us) s' t t p p all done done).1)
