-- ===== src/Util/Singleton/Once.antt =====
-- However the calls of `GetInstance` of cpp_lib/util/singleton.h interleave, before the handler of
-- `atexit` runs, one object is made.
use mathlib.Core.Path.{subst}
use cpp_lib.Prelude.{
  ℕ, ◌≡◌, ◌≢◌, inl, inr, refl, ap, ◌∙◌, sym, true, false, Bool-cases, none, some, Option-cases,
  List, [], ◌∷◌, ◌==◌, if◌then◌else◌, update, arith,
}
use cpp_lib.Util.Singleton.{Lifetime, Statics, Pc, returned, move, System, init, step, run}
use cpp_lib.Util.Singleton.Knowledge.{owns, Knows, Sound, Effect, move-Effect, other-Knows}

module _ (create : ℕ → ℕ) where
  module _ (s : System) (ok : Sound create s) (t : ℕ) (m' : Statics) (p' : Pc)
      (eff : Effect create s.statics (s.pcs t) m' p') where
    -- While another thread has the lock, the step changes nothing but the thread.
    still :
        (u : ℕ)
        → u ≢ t
        → owns (s.pcs u) ≡ true
        → (m' ≡ s.statics) × (m'.mutex ≡ true) × (owns p' ≡ false)
    still u ne y = elim (Bool-cases (owns (s.pcs t))) [
      | inl own ↦ absurd (ne (ok.alone u t y own))
      | inr not_own ↦
          let shut = ok.locked u y in
          let e = eff.outside not_own shut in
          (
            e,
            ap (λ m. Statics.mutex m) e ∙ shut,
            elim (eff.mutex) [
              | inl (a, b) ↦ b ∙ not_own
              | inr (inl (a, b)) ↦ absurd (ground (arith, a, shut))
              | inr (inr (a, b, c)) ↦ c
            ],
          )
    ]

    moved : (u : ℕ) → (u == t) ≡ true → update s.pcs t p' u ≡ p'
    moved u e = ap (λ b. if b then p' else s.pcs u) e

    stayed : (u : ℕ) → (u == t) ≡ false → update s.pcs t p' u ≡ s.pcs u
    stayed u e = ap (λ b. if b then p' else s.pcs u) e

    step-Knows : (u : ℕ) → Knows create m' (update s.pcs t p' u)
    step-Knows u = elim (Bool-cases (u == t)) [
      | inl e ↦ subst (Knows create m') (sym (moved u e)) eff.knows
      | inr e ↦ subst (Knows create m') (sym (stayed u e)) (elim (Bool-cases (owns (s.pcs u))) [
        | inl own ↦
            subst (λ m. Knows create m (s.pcs u)) (sym (still u (ground (arith, e)) own).0)
              (ok.knows u)
        | inr n ↦ other-Knows create s.statics m' (s.pcs u) (ok.knows u) n ok.free.living eff.kept
      ])
    ]

    step-locked : (u : ℕ) → owns (update s.pcs t p' u) ≡ true → m'.mutex ≡ true
    step-locked u y = elim (Bool-cases (u == t)) [
      | inl e ↦ eff.locked (ap owns (sym (moved u e)) ∙ y)
      | inr e ↦ (still u (ground (arith, e)) (ap owns (sym (stayed u e)) ∙ y)).1
    ]

    step-alone :
        (u v : ℕ) → owns (update s.pcs t p' u) ≡ true → owns (update s.pcs t p' v) ≡ true → u ≡ v
    step-alone u v y z = elim (Bool-cases (u == t)) [
      | inl e ↦ elim (Bool-cases (v == t)) [
        | inl d ↦ ground (arith, e, d)
        | inr d ↦
            let no = (still v (ground (arith, d)) (ap owns (sym (stayed v d)) ∙ z)).2 in
            absurd (ground (arith, no, ap owns (sym (moved u e)) ∙ y))
      ]
      | inr e ↦ elim (Bool-cases (v == t)) [
        | inl d ↦
            let no = (still u (ground (arith, e)) (ap owns (sym (stayed u e)) ∙ y)).2 in
            absurd (ground (arith, no, ap owns (sym (moved v d)) ∙ z))
        | inr d ↦ ok.alone u v (ap owns (sym (stayed u e)) ∙ y) (ap owns (sym (stayed v d)) ∙ z)
      ]
    ]

    self : owns p' ≡ true → (u : ℕ) × (owns (update s.pcs t p' u) ≡ true)
    self y = (t, ap owns (moved t (ground arith)) ∙ y)

    step-owner : m'.mutex ≡ true → (u : ℕ) × (owns (update s.pcs t p' u) ≡ true)
    step-owner y = elim (eff.mutex) [
      | inl (a, b) ↦
          let (u, own) = ok.owner (sym a ∙ y) in
          elim (Bool-cases (u == t)) [
            | inl e ↦ self (b ∙ ap (λ x. owns (s.pcs x)) (ground (arith, e)) ∙ own)
            | inr e ↦ (u, ap owns (stayed u e) ∙ own)
          ]
      | inr (inl (a, b)) ↦ self b
      | inr (inr (a, b, c)) ↦ absurd (ground (arith, a, y))
    ]

    moved-Sound : Sound create (record { statics = m'; pcs = update s.pcs t p' })
    moved-Sound = record {
      free = eff.free;
      knows = step-Knows;
      locked = step-locked;
      alone = step-alone;
      owner = step-owner;
    }

  step-Sound :
      (life : Lifetime) (t : ℕ) (s s' : System)
      → Sound create s
      → step create life t s ≡ some s'
      → Sound create s'
  unfolding step
  step-Sound life t s s' ok h = elim (Option-cases (move create life (s.pcs t) s.statics)) [
    | inl e ↦ absurd (ground (arith, e, h))
    | inr ((p, m), e) ↦
        let next : System = record { statics = m; pcs = update s.pcs t p } in
        let eff =
          move-Effect create life (s.pcs t) s.statics (p, m) ok.free (ok.knows t) (ok.locked t) e in
        let same : next ≡ s' = ground (arith, e, h) in
        subst (Sound create) same (moved-Sound s ok t m p eff)
  ]

  pub run-Sound :
      (life : Lifetime) (ts : List ℕ) (s s' : System)
      → Sound create s
      → run create life ts s ≡ some s'
      → Sound create s'
  unfolding run
  run-Sound life [] s s' ok h =
      subst (Sound create) (ap (λ o. elim o [ none ↦ s | some x ↦ x ]) h) ok
  run-Sound life (t ∷ ts) s s' ok h = elim (Option-cases (step create life t s)) [
    | inl e ↦ absurd (ground (arith, e, h))
    | inr (mid, e) ↦ run-Sound life ts mid s' (step-Sound life t s mid ok e) (ground (arith, e, h))
  ]

  pub init-Sound : Sound create init
  init-Sound = record {
    free = record {
      living = refl;
      quiet = λ y. inl (refl, refl);
      visible = λ p e. absurd (ground arith);
    };
    knows = λ t. tt;
    locked = λ t e. absurd (ground arith);
    alone = λ t u e d. absurd (ground arith);
    owner = λ e. absurd (ground arith);
  }

  pub run-alone :
      (life : Lifetime) (ts : List ℕ) (s : System) (t u : ℕ)
      → run create life ts init ≡ some s
      → owns (s.pcs t) ≡ true
      → owns (s.pcs u) ≡ true
      → t ≡ u
  run-alone life ts s t u h = (run-Sound life ts init s init-Sound h).alone t u

  -- Whatever addresses `Create` gives, under each lifetime policy and in every interleaving of
  -- any number of threads before the handler of `atexit` runs, two calls of `GetInstance` that
  -- have returned have returned the same pointer, the address of the first object; `instance_`
  -- holds it, and `Create` has been called once.
  pub run-once :
      (life : Lifetime) (ts : List ℕ) (s : System) (t u p q : ℕ)
      → run create life ts init ≡ some s
      → s.pcs t ≡ returned p
      → s.pcs u ≡ returned q
      → (p ≡ q) × (p ≡ create 0) × (s.statics.instance_ptr ≡ some p) × (s.statics.created ≡ 1)
  run-once life ts s t u p q h e d =
      let ok = run-Sound life ts init s init-Sound h in
      let k = subst (Knows create s.statics) e (ok.knows t) in
      let l = subst (Knows create s.statics) d (ok.knows u) in
      (k.1 ∙ sym l.1, k.1, k.0.0 ∙ ap some (sym k.1), k.0.1)
