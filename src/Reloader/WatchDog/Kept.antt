-- ===== src/Reloader/WatchDog/Kept.antt =====
-- The files that the dog of cpp_lib/reloader/watchdog.cc watches: each under its own path, no path
-- twice, through every call of it.
use mathlib.Core.Path.{subst}
use mathlib.Core.Logic.{ite}
use cpp_lib.Prelude.{
  ℕ, ◌≡◌, refl, sym, ap, ◌∙◌, inl, inr, Bool, true, false, Option, none, some, List, [], ◌∷◌, arith,
  if◌then◌else◌, Option-cases, Bool-cases,
}
use cpp_lib.Reloader.File.{FileInfo, ReloadableFile, path_of, Stat, try_load, reload}
use cpp_lib.Reloader.WatchDog.{
  WatchDog, created, contains, assign, remove, try_file, try_files, watch_commit, cancel, stop_all,
  run_round,
}
use cpp_lib.Reloader.WatchDog.Rounds.{Registered, Keyed, after, after-path}
use cpp_lib.Reloader.WatchDog.Reloads.{Reloads, try_files-Reloads}

module _ {FilePath : Type 0} (dec : Discrete FilePath) {Object : Type 0}
    (load : FilePath → ℕ → Object → ℕ × Object) where
  pub record IsKept (w : WatchDog FilePath Object) : Type 0 where
    pub registered : Registered w w.watched_files
    pub keyed : Keyed dec w.watched_files

  Registered-same :
      (w w' : WatchDog FilePath Object) (l : List (FilePath × ℕ))
      → ((b : ℕ) → path_of w'.infos (w'.files b) ≡ path_of w.infos (w.files b))
      → Registered w l
      → Registered w' l
  Registered-same w w' [] same h = tt
  Registered-same w w' ((p, a) ∷ l) same h = (same a ∙ h.0, Registered-same w w' l same h.1)

  assign-Registered :
      (w : WatchDog FilePath Object) (l : List (FilePath × ℕ)) (p : FilePath) (a : ℕ)
      → path_of w.infos (w.files a) ≡ some p
      → Registered w l
      → Registered w (assign dec p a l)
  unfolding assign
  assign-Registered w [] p a at h = (at, tt)
  assign-Registered w ((q, b) ∷ l) p a at h =
      elim (dec q p)
        as (λ (d : Dec (q ≡ p)). Registered w (ite d ((q, a) ∷ l) ((q, b) ∷ assign dec p a l))) [
          | yes e ↦ (at ∙ ap some (sym e), h.1)
          | no ne ↦ (h.0, assign-Registered w l p a at h.1)
        ]

  remove-Registered :
      (w : WatchDog FilePath Object) (l : List (FilePath × ℕ)) (p : FilePath)
      → Registered w l
      → Registered w (remove dec p l)
  unfolding remove
  remove-Registered w [] p h = tt
  remove-Registered w ((q, b) ∷ l) p h =
      elim (dec q p) as (λ (d : Dec (q ≡ p)). Registered w (ite d l ((q, b) ∷ remove dec p l))) [
        | yes e ↦ h.1
        | no ne ↦ (h.0, remove-Registered w l p h.1)
      ]

  contains-assign :
      (l : List (FilePath × ℕ)) (p q : FilePath) (a : ℕ)
      → ¬ (q ≡ p)
      → contains dec q l ≡ false
      → contains dec q (assign dec p a l) ≡ false
  unfolding contains assign
  contains-assign [] p q a ne out = ground arith
  contains-assign ((r, b) ∷ l) p q a ne out = ground (arith, contains-assign l p q a ne)

  contains-remove :
      (l : List (FilePath × ℕ)) (p q : FilePath)
      → contains dec q l ≡ false
      → contains dec q (remove dec p l) ≡ false
  unfolding contains remove
  contains-remove [] p q out = refl
  contains-remove ((r, b) ∷ l) p q out = ground (arith, contains-remove l p q)

  assign-Keyed :
      (l : List (FilePath × ℕ)) (p : FilePath) (a : ℕ) → Keyed dec l → Keyed dec (assign dec p a l)
  unfolding assign contains
  assign-Keyed [] p a k = (refl, tt)
  assign-Keyed ((q, b) ∷ l) p a k =
      elim (dec q p)
        as (λ (d : Dec (q ≡ p)). Keyed dec (ite d ((q, a) ∷ l) ((q, b) ∷ assign dec p a l))) [
          | yes e ↦ k
          | no ne ↦ (contains-assign l p q a ne k.0, assign-Keyed l p a k.1)
        ]

  remove-Keyed : (l : List (FilePath × ℕ)) (p : FilePath) → Keyed dec l → Keyed dec (remove dec p l)
  unfolding remove
  remove-Keyed [] p k = tt
  remove-Keyed ((q, b) ∷ l) p k =
      elim (dec q p) as (λ (d : Dec (q ≡ p)). Keyed dec (ite d l ((q, b) ∷ remove dec p l))) [
        | yes e ↦ k.1
        | no ne ↦ (contains-remove l p q k.0, remove-Keyed l p k.1)
      ]

  pub committed-IsKept :
      (stat : FilePath → Option Stat) (w : WatchDog FilePath Object) (a : ℕ) (p : FilePath)
      → path_of w.infos (w.files a) ≡ some p
      → IsKept w
      → IsKept (record (after dec load stat w a) { watched_files = assign dec p a w.watched_files })
  committed-IsKept stat w a p at i =
      let v = after dec load stat w a in
      let same = after-path dec load stat w a in
      record {
        registered =
            assign-Registered v w.watched_files p a (same a ∙ at)
              (Registered-same w v w.watched_files same i.registered);
        keyed = assign-Keyed w.watched_files p a i.keyed;
      }

  -- A `Watch` that does not fault is of a file that has a path.
  pub watch_commit-path :
      (stat : FilePath → Option Stat) (w w' : WatchDog FilePath Object) (a : ℕ)
      → watch_commit dec load stat w a ≡ some w'
      → (p : FilePath) × (path_of w.infos (w.files a) ≡ some p)
  unfolding watch_commit try_file try_load reload
  watch_commit-path stat w w' a e = elim (Option-cases (path_of w.infos (w.files a))) [
    | inl none_at ↦ absurd (ground arith)
    | inr found ↦ found
  ]

  pub cancel-IsKept :
      (stat : FilePath → Option Stat) (w : WatchDog FilePath Object) (path : FilePath)
      → IsKept w
      → IsKept (cancel dec load stat w path).0
  unfolding cancel
  cancel-IsKept stat w path i = elim (Bool-cases (contains dec path w.watched_files)) [
    | inl e ↦ rw e (record {
      registered = remove-Registered w w.watched_files path i.registered;
      keyed = remove-Keyed w.watched_files path i.keyed;
    })
    | inr e ↦ rw e i
  ]

  pub stop_all-IsKept :
      (stat : FilePath → Option Stat) (w : WatchDog FilePath Object)
      → IsKept w
      → IsKept (stop_all dec load stat w)
  unfolding stop_all
  stop_all-IsKept stat w i =
      let emptied : WatchDog FilePath Object = record w { watched_files = []; stop = true } in
      elim (Bool-cases w.stop) [
        | inl e ↦ subst IsKept (sym (ap (λ b. if b then w else emptied) e)) i
        | inr e ↦
            subst IsKept (sym (ap (λ b. if b then w else emptied) e))
              (record { registered = tt; keyed = tt })
      ]

  pub run_round-stopped :
      (stat : FilePath → Option Stat) (w : WatchDog FilePath Object)
      → w.stop ≡ true
      → run_round dec load stat w ≡ some (w, false)
  unfolding run_round
  run_round-stopped stat w e = ground arith

  run_round-going :
      (stat : FilePath → Option Stat) (w : WatchDog FilePath Object)
      → w.stop ≡ false
      → run_round dec load stat w ≡ elim (try_files dec load stat w.watched_files w) [
        | none ↦ none
        | some w' ↦ some (w', true)
      ]
  unfolding run_round
  run_round-going stat w going =
      ap
        (λ b. if b then some (w, false) else elim (try_files dec load stat w.watched_files w) [
          | none ↦ none
          | some w' ↦ some (w', true)
        ])
        going

  -- A round of a dog that is not stopped.
  pub run_round-Reloads :
      (stat : FilePath → Option Stat) (w : WatchDog FilePath Object)
      → IsKept w
      → w.stop ≡ false
      → (files' : ℕ → ReloadableFile Object) × (infos' : ℕ → FileInfo FilePath) × (run_round dec
            load stat w
          ≡ some (record w { files = files'; infos = infos' }, true))
        × Reloads dec load stat w (record w { files = files'; infos = infos' }) w.watched_files
        × ((a : ℕ) → path_of infos' (files' a) ≡ path_of w.infos (w.files a))
  run_round-Reloads stat w i going =
      let (files', infos', ran, r, paths) =
        try_files-Reloads dec load stat w.watched_files w i.registered i.keyed in
      (files', infos', rw (run_round-going stat w going, ran) refl, r, paths)

  pub ran-IsKept :
      (stat : FilePath → Option Stat) (w w' : WatchDog FilePath Object) (goes_on : Bool)
      → run_round dec load stat w ≡ some (w', goes_on)
      → IsKept w
      → IsKept w'
  ran-IsKept stat w w' goes_on e i = elim (Bool-cases w.stop) [
    | inl stop ↦ subst IsKept (cc (run_round-stopped stat w stop, e)) i
    | inr going ↦
        let (files', infos', round, r, paths) = run_round-Reloads stat w i going in
        let v : WatchDog FilePath Object = record w { files = files'; infos = infos' } in
        let same : v ≡ w' = cc (round, e) in
        subst IsKept same (record {
          registered = Registered-same w v w.watched_files paths i.registered;
          keyed = i.keyed;
        })
  ]

  pub created-IsKept :
      (files : ℕ → ReloadableFile Object) (infos : ℕ → FileInfo FilePath)
      → IsKept (created files infos)
  unfolding created
  created-IsKept files infos = record { registered = tt; keyed = tt }
