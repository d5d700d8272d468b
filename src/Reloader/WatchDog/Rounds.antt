-- ===== src/Reloader/WatchDog/Rounds.antt =====
-- A round of `Run` of cpp_lib/reloader/watchdog.cc over the watched files.
use cpp_lib.Prelude.{
  ℕ, ◌≡◌, ◌≢◌, refl, sym, ap, ◌∙◌, inl, inr, false, Option, none, some, List, [], ◌∷◌, arith, ◌==◌,
  update, All, Option-cases, Bool-cases,
}
use cpp_lib.Reloader.File.{FileInfo, ReloadableFile, path_of, Stat, reload, try_load}
use cpp_lib.Reloader.WatchDog.{WatchDog, contains, try_file}

abbrev pub addresses : {FilePath : Type 0} → List (FilePath × ℕ) → List ℕ
addresses [] = []
addresses ((p, a) ∷ rest) = a ∷ addresses rest

-- Each entry is under the path of its file.
abbrev pub Registered :
    {FilePath Object : Type 0} → WatchDog FilePath Object → List (FilePath × ℕ) → Type 0
Registered {FilePath} w l = All (λ (e : FilePath × ℕ). path_of w.infos (w.files e.1) ≡ some e.0) l

-- No path stands twice in the map.
abbrev pub Keyed : {FilePath : Type 0} → Discrete FilePath → List (FilePath × ℕ) → Type 0
Keyed dec [] = Unit
Keyed dec ((p, a) ∷ l) = (contains dec p l ≡ false) × Keyed dec l

module _ {FilePath : Type 0} (dec : Discrete FilePath) {Object : Type 0}
    (load : FilePath → ℕ → Object → ℕ × Object) (stat : FilePath → Option Stat) where
  -- The file after a `TryLoad`, and the records.
  pub reloaded : (ℕ → FileInfo FilePath) → ReloadableFile Object → ReloadableFile Object
  reloaded infos f = elim (try_load load stat infos f) [ none ↦ f | some o ↦ o.file ]

  pub stamped : (ℕ → FileInfo FilePath) → ReloadableFile Object → ℕ → FileInfo FilePath
  stamped infos f = elim (try_load load stat infos f) [ none ↦ infos | some o ↦ o.infos ]

  pub reloaded-file_info :
      (infos : ℕ → FileInfo FilePath) (f : ReloadableFile Object)
      → (reloaded infos f).file_info ≡ f.file_info
  unfolding reloaded try_load reload
  reloaded-file_info infos f = ground arith

  pub stamped-path :
      (infos : ℕ → FileInfo FilePath) (f : ReloadableFile Object) (i : ℕ)
      → (stamped infos f i).path ≡ (infos i).path
  unfolding stamped try_load reload
  stamped-path infos f i = ground arith

  -- `TryLoad` writes to no record but the one of the file.
  pub stamped-other :
      (infos : ℕ → FileInfo FilePath) (f : ReloadableFile Object) (i : ℕ)
      → f.file_info ≢ some i
      → stamped infos f i ≡ infos i
  unfolding stamped try_load reload
  stamped-other infos f i ne = ground arith

  -- It reads no other record.
  pub reloaded-local :
      (infos infos' : ℕ → FileInfo FilePath) (f : ReloadableFile Object) (i : ℕ)
      → f.file_info ≡ some i
      → infos' i ≡ infos i
      → (reloaded infos' f ≡ reloaded infos f) × (stamped infos' f i ≡ stamped infos f i)
  unfolding reloaded stamped try_load reload
  reloaded-local infos infos' f i at same = ground arith

  -- The state after a `TryLoad` of the file at `a`.
  abbrev pub after : WatchDog FilePath Object → ℕ → WatchDog FilePath Object
  after w a = record w {
    files = update w.files a (reloaded w.infos (w.files a));
    infos = stamped w.infos (w.files a);
  }

  pub try_file-after :
      (w : WatchDog FilePath Object) (a : ℕ) (p : FilePath)
      → path_of w.infos (w.files a) ≡ some p
      → try_file dec load stat w a ≡ some (after w a)
  unfolding try_file reloaded stamped try_load
  try_file-after w a p h = elim (Option-cases (try_load load stat w.infos (w.files a))) [
    | inl e ↦ absurd (ground arith)
    | inr (o, ran) ↦ rw (ran, try_file, reloaded, stamped) refl
  ]

  pub after-file_info :
      (w : WatchDog FilePath Object) (a b : ℕ)
      → ((after w a).files b).file_info ≡ (w.files b).file_info
  after-file_info w a b = elim (Bool-cases (b == a)) [
    | inl e ↦
        let same : b ≡ a = ground arith in
        rw e (reloaded-file_info w.infos (w.files a) ∙ ap (λ y. (w.files y).file_info) (sym same))
    | inr ne ↦ rw ne refl
  ]

  pub after-path :
      (w : WatchDog FilePath Object) (a b : ℕ)
      → path_of (after w a).infos ((after w a).files b) ≡ path_of w.infos (w.files b)
  after-path w a b =
      ap (λ (o : Option ℕ). elim o [ none ↦ none | some i ↦ some ((after w a).infos i).path ])
        (after-file_info w a b)
      ∙ same (w.files b).file_info
    where
      same :
          (o : Option ℕ)
          → (elim o [ none ↦ none | some i ↦ some ((after w a).infos i).path ])
            ≡ (elim o [ none ↦ none | some i ↦ some (w.infos i).path ])
      same none = refl
      same (some i) = ap some (stamped-path w.infos (w.files a) i)
