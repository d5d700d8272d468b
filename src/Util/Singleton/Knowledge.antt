-- ===== src/Util/Singleton/Knowledge.antt =====
-- What a thread in `GetInstance` of cpp_lib/util/singleton.h knows where it stands, and the effect
-- of one of its steps.
use mathlib.Core.Path.{subst}
use cpp_lib.Prelude.{
  ℕ, ◌+◌, ◌≡◌, ◌⊎◌, inl, inr, refl, ap, ◌∙◌, sym, Bool, true, false, Bool-cases, Option, none, some,
  Option-cases, if◌then◌else◌, arith,
}
use cpp_lib.Util.Singleton.{
  Lifetime, Statics, schedule_destruction, default_lifetime, phoneix_lifetime, no_destroy_lifetime,
  Pc, start, missed, holding, unset, reviving, creating, storing, scheduling, leaving, returned,
  aborted, move, System,
}

-- Between the lock and the unlock.
abbrev pub owns : Pc → Bool
owns start = false
owns missed = false
owns holding = true
owns unset = true
owns reviving = true
owns creating = true
owns (storing p) = true
owns (scheduling p) = true
owns (leaving p) = true
owns (returned p) = false
owns aborted = false

module _ (create : ℕ → ℕ) where
  abbrev pub Fresh : Statics → Type 0
  Fresh m = (m.instance_ptr ≡ none) × (m.created ≡ 0)

  abbrev pub Ready : Statics → Type 0
  Ready m = (m.instance_ptr ≡ some (create 0)) × (m.created ≡ 1)

  -- What a thread that stands there knows of the static members.
  abbrev pub Knows : Statics → Pc → Type 0
  Knows m start = Unit
  Knows m missed = Unit
  Knows m holding = Fresh m ⊎ Ready m
  Knows m unset = Fresh m
  Knows m reviving = m.destroyed ≡ true
  Knows m creating = Fresh m
  Knows m (storing p) = (m.instance_ptr ≡ none) × (m.created ≡ 1) × (p ≡ create 0)
  Knows m (scheduling p) = Ready m × (p ≡ create 0)
  Knows m (leaving p) = Ready m × (p ≡ create 0)
  Knows m (returned p) = Ready m × (p ≡ create 0)
  Knows m aborted = m.destroyed ≡ true

  pub record Free (m : Statics) : Type 0 where
    pub living : m.destroyed ≡ false
    pub quiet : m.mutex ≡ false → Fresh m ⊎ Ready m
    pub visible : (p : ℕ) → m.instance_ptr ≡ some p → Ready m

  pub record Sound (s : System) : Type 0 where
    pub free : Free s.statics
    pub knows : (t : ℕ) → Knows s.statics (s.pcs t)
    pub locked : (t : ℕ) → owns (s.pcs t) ≡ true → s.statics.mutex ≡ true
    pub alone : (t u : ℕ) → owns (s.pcs t) ≡ true → owns (s.pcs u) ≡ true → t ≡ u
    pub owner : s.statics.mutex ≡ true → (t : ℕ) × (owns (s.pcs t) ≡ true)

  -- The effect of one step of a thread at `p`.
  pub record Effect (m : Statics) (p : Pc) (m' : Statics) (p' : Pc) : Type 0 where
    pub free : Free m'
    pub knows : Knows m' p'
    pub kept : Ready m → Ready m'
    pub locked : owns p' ≡ true → m'.mutex ≡ true
    pub mutex :
        (m'.mutex ≡ m.mutex) × (owns p' ≡ owns p)
        ⊎ ((m.mutex ≡ false) × (owns p' ≡ true)
            ⊎ (m'.mutex ≡ false) × (owns p ≡ true) × (owns p' ≡ false))
    pub outside : owns p ≡ false → m.mutex ≡ true → m' ≡ m

  -- `ScheduleDestruction` only registers the handler.
  schedule-keeps :
      (life : Lifetime) (m : Statics)
      → (sd : Statics) × (schedule_destruction life m ≡ sd)
        × (sd.mutex ≡ m.mutex)
        × (sd.instance_ptr ≡ m.instance_ptr)
        × (sd.created ≡ m.created)
        × (sd.destroyed ≡ m.destroyed)
  unfolding schedule_destruction
  schedule-keeps default_lifetime m =
      (record m { scheduled = m.scheduled + 1 }, refl, refl, refl, refl, refl)
  schedule-keeps phoneix_lifetime m = elim (Bool-cases m.destroyed_once) [
    | inl y ↦ (m, rw (schedule_destruction, y) refl, refl, refl, refl, refl)
    | inr n ↦ (
      record m { scheduled = m.scheduled + 1 },
      rw (schedule_destruction, n) refl,
      refl,
      refl,
      refl,
      refl,
    )
  ]
  schedule-keeps no_destroy_lifetime m = (m, refl, refl, refl, refl, refl)

  ended :
      (m : Statics) (p : Pc) (r r' : Pc × Statics)
      → some r ≡ some r'
      → Effect m p r.1 r.0
      → Effect m p r'.1 r'.0
  ended m p r r' e = subst (λ x. Effect m p x.1 x.0) (ap (λ o. elim o [ none ↦ r | some x ↦ x ]) e)

  same : (m : Statics) (p : ℕ) → m.instance_ptr ≡ some p → Ready m → Ready m × (p ≡ create 0)
  same m p e k = (k, ground (arith, e, k.0))

  -- A step that leaves the static members and the lock.
  idle :
      (m : Statics) (p p' : Pc)
      → Free m
      → Knows m p'
      → owns p' ≡ owns p
      → (owns p ≡ true → m.mutex ≡ true)
      → Effect m p m p'
  idle m p p' f k e o = record {
    free = f;
    knows = k;
    kept = λ r. r;
    locked = λ y. o (sym e ∙ y);
    mutex = inl (refl, e);
    outside = λ a b. refl;
  }

  -- A step of a thread that has the lock.
  inside :
      (m m' : Statics) (p p' : Pc)
      → m'.destroyed ≡ false
      → m'.mutex ≡ m.mutex
      → owns p ≡ true
      → owns p' ≡ true
      → m.mutex ≡ true
      → Knows m' p'
      → (Ready m → Ready m')
      → ((q : ℕ) → m'.instance_ptr ≡ some q → Ready m')
      → Effect m p m' p'
  inside m m' p p' d e y y' l k r v = record {
    free = record { living = d; quiet = λ n. absurd (ground (arith, n, e, l)); visible = v };
    knows = k;
    kept = r;
    locked = λ x. e ∙ l;
    mutex = inl (e, y' ∙ sym y);
    outside = λ a b. absurd (ground (arith, a, y));
  }

  -- A load of the pointer that finds what stands there.
  abbrev on : Option (Pc × Statics) → (ℕ → Option (Pc × Statics)) → Option ℕ → Option (Pc × Statics)
  on null found none = null
  on null found (some p) = found p

  load :
      (m : Statics) (null : Option (Pc × Statics)) (found : ℕ → Option (Pc × Statics))
      → {o : Option ℕ} → m.instance_ptr ≡ o
      → on null found m.instance_ptr ≡ on null found o
  load m null found e = ap (on null found) e

  pub move-Effect :
      (life : Lifetime) (p : Pc) (m : Statics) (r : Pc × Statics)
      → Free m
      → Knows m p
      → (owns p ≡ true → m.mutex ≡ true)
      → move create life p m ≡ some r
      → Effect m p r.1 r.0
  unfolding move
  move-Effect life start m r f k o h = elim (Option-cases m.instance_ptr) [
    | inl e ↦
        ended m start (missed, m) r
          (sym (load m (some (missed, m)) (λ p. some (returned p, m)) e) ∙ h)
          (idle m start missed f tt refl o)
    | inr (p, e) ↦
        ended m start (returned p, m) r
          (sym (load m (some (missed, m)) (λ q. some (returned q, m)) e) ∙ h)
          (idle m start (returned p) f (same m p e (f.visible p e)) refl o)
  ]
  move-Effect life missed m r f k o h = elim (Bool-cases m.mutex) [
    | inl y ↦ absurd (ground (arith, y, h))
    | inr n ↦
        ended m missed (holding, record m { mutex = true }) r
          (sym (ap (λ b. if b then none else some (holding, record m { mutex = true })) n) ∙ h)
          record {
            free = record {
              living = f.living;
              quiet = λ y. absurd (ground (arith, y));
              visible = f.visible;
            };
            knows = f.quiet n;
            kept = λ x. x;
            locked = λ x. refl;
            mutex = inr (inl (n, refl));
            outside = λ a b. absurd (ground (arith, b, n));
          }
  ]
  move-Effect life holding m r f k o h = elim (Option-cases m.instance_ptr) [
    | inl e ↦
        ended m holding (unset, m) r
          (sym (load m (some (unset, m)) (λ q. some (leaving q, m)) e) ∙ h)
          (idle m holding unset f (ground (arith, e, k)) refl o)
    | inr (p, e) ↦
        ended m holding (leaving p, m) r
          (sym (load m (some (unset, m)) (λ q. some (leaving q, m)) e) ∙ h)
          (idle m holding (leaving p) f (same m p e (f.visible p e)) refl o)
  ]
  move-Effect life unset m r f k o h =
      ended m unset (creating, m) r
        (sym (ap (λ b. if b then some (reviving, m) else some (creating, m)) f.living) ∙ h)
        (idle m unset creating f k refl o)
  move-Effect life reviving m r f k o h = absurd (ground (arith, f.living, k))
  move-Effect life creating m r f k o h =
      ended m creating (storing (create m.created), record m { created = m.created + 1 }) r h
        (inside m (record m { created = m.created + 1 }) creating (storing (create m.created))
          f.living refl refl refl (o refl) (k.0, ap (λ n. n + 1) k.1, ap create k.1)
          (λ x. absurd (ground (arith, x.1, k.1))) (λ q e. absurd (ground (arith, e, k.0))))
  move-Effect life (storing p) m r f k o h =
      let now : Ready (record m { instance_ptr = some p }) = (ap some k.2, k.1) in
      ended m (storing p) (scheduling p, record m { instance_ptr = some p }) r h
        (inside m (record m { instance_ptr = some p }) (storing p) (scheduling p) f.living refl refl
          refl (o refl) (now, k.2) (λ x. now) (λ q e. now))
  move-Effect life (scheduling p) m r f k o h =
      let (sd, e, mu, ip, cr, de) = schedule-keeps life m in
      let now : Ready sd = (ip ∙ k.0.0, cr ∙ k.0.1) in
      ended m (scheduling p) (leaving p, sd) r (ap (λ x. some (leaving p, x)) (sym e) ∙ h)
        (inside m sd (scheduling p) (leaving p) (de ∙ f.living) mu refl refl (o refl) (now, k.1)
          (λ x. now) (λ q x. now))
  move-Effect life (leaving p) m r f k o h =
      ended m (leaving p) (returned p, record m { mutex = false }) r h
        record {
          free = record { living = f.living; quiet = λ y. inr k.0; visible = λ q e. k.0 };
          knows = k;
          kept = λ x. x;
          locked = λ y. absurd (ground (arith, y));
          mutex = inr (inr (refl, refl, refl));
          outside = λ a b. absurd (ground (arith, a));
        }
  move-Effect life (returned p) m r f k o h = absurd (ground arith)
  move-Effect life aborted m r f k o h = absurd (ground (arith, f.living, k))

  -- What a thread without the lock knows survives the steps of the others.
  pub other-Knows :
      (m m' : Statics) (q : Pc)
      → Knows m q
      → owns q ≡ false
      → m.destroyed ≡ false
      → (Ready m → Ready m')
      → Knows m' q
  other-Knows m m' start k o d g = tt
  other-Knows m m' missed k o d g = tt
  other-Knows m m' holding k o d g = absurd (ground arith)
  other-Knows m m' unset k o d g = absurd (ground arith)
  other-Knows m m' reviving k o d g = absurd (ground arith)
  other-Knows m m' creating k o d g = absurd (ground arith)
  other-Knows m m' (storing p) k o d g = absurd (ground arith)
  other-Knows m m' (scheduling p) k o d g = absurd (ground arith)
  other-Knows m m' (leaving p) k o d g = absurd (ground arith)
  other-Knows m m' (returned p) k o d g = (g k.0, k.1)
  other-Knows m m' aborted k o d g = absurd (ground (arith, k, d))
