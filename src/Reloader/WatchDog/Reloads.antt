-- ===== src/Reloader/WatchDog/Reloads.antt =====
-- What a round of `Run` of cpp_lib/reloader/watchdog.cc changes: each watched file and its record
-- as one `TryLoad` does, although another file may share the record.
use mathlib.Core.Path.{subst}
use cpp_lib.Prelude.{
  ℕ, ◌≡◌, ◌≢◌, refl, sym, ap, ◌∙◌, inl, inr, true, false, Option, some, List, [], ◌∷◌, arith, ◌==◌,
  has, All, Option-cases, Bool-cases,
}
use cpp_lib.Reloader.File.{FileInfo, ReloadableFile, path_of, Stat}
use cpp_lib.Reloader.WatchDog.{WatchDog, contains, try_files}
use cpp_lib.Reloader.WatchDog.Rounds.{
  addresses, reloaded, stamped, stamped-other, reloaded-local, Registered, Keyed, after,
  try_file-after, after-file_info, after-path,
}

module _ {FilePath : Type 0} (dec : Discrete FilePath) {Object : Type 0}
    (load : FilePath → ℕ → Object → ℕ × Object) (stat : FilePath → Option Stat) where
  -- The file at `a` and its record are as one `TryLoad` makes them.
  abbrev pub IsReloaded : WatchDog FilePath Object → WatchDog FilePath Object → ℕ → Type 0
  IsReloaded w w' a =
      (w'.files a ≡ reloaded dec load stat w.infos (w.files a))
      × ((i : ℕ)
          → (w.files a).file_info ≡ some i
          → w'.infos i ≡ stamped dec load stat w.infos (w.files a) i)

  -- Each file of the list is reloaded, and no other file and no record of another file changes.
  pub record Reloads (w w' : WatchDog FilePath Object) (l : List (FilePath × ℕ)) : Type 0 where
    pub watched : All (λ (e : FilePath × ℕ). IsReloaded w w' e.1) l
    pub other_files : (a : ℕ) → has a (addresses l) ≡ false → w'.files a ≡ w.files a
    pub other_infos :
        (i : ℕ)
        → All (λ (e : FilePath × ℕ). (w.files e.1).file_info ≢ some i) l
        → w'.infos i ≡ w.infos i

  -- Another file than `b`, with another record.
  IsApart : WatchDog FilePath Object → ℕ → FilePath × ℕ → Type 0
  IsApart w b e =
      ((e.1 == b) ≡ false)
      × ((i : ℕ) → (w.files e.1).file_info ≡ some i → (w.files b).file_info ≢ some i)

  path-at :
      (w : WatchDog FilePath Object) (a i : ℕ)
      → (w.files a).file_info ≡ some i
      → path_of w.infos (w.files a) ≡ some (w.infos i).path
  path-at w a i h = ground (arith, h)

  record-of :
      (w : WatchDog FilePath Object) (a : ℕ) (p : FilePath)
      → path_of w.infos (w.files a) ≡ some p
      → (i : ℕ) × ((w.files a).file_info ≡ some i)
  record-of w a p h = elim (Option-cases (w.files a).file_info) [
    | inl e ↦ absurd (ground (arith, h, e))
    | inr found ↦ found
  ]

  other_path :
      (w : WatchDog FilePath Object) (b c : ℕ) (p q : FilePath)
      → path_of w.infos (w.files b) ≡ some p
      → path_of w.infos (w.files c) ≡ some q
      → q ≢ p
      → IsApart w b (q, c)
  unfolding IsApart
  other_path w b c p q at at' ne = (
    elim (Bool-cases (c == b)) [
      | inr other ↦ other
      | inl yes_ ↦
          let same : c ≡ b = ground arith in
          let both : some q ≡ some p = sym at' ∙ ap (λ y. path_of w.infos (w.files y)) same ∙ at in
          absurd (ground (arith, both, ne))
    ],
    λ i h g.
        let both : some q ≡ some p = sym at' ∙ path-at w c i h ∙ sym (path-at w b i g) ∙ at in
        absurd (ground (arith, both, ne)),
  )

  other_paths :
      (w : WatchDog FilePath Object) (b : ℕ) (p : FilePath) (l : List (FilePath × ℕ))
      → path_of w.infos (w.files b) ≡ some p
      → Registered w l
      → contains dec p l ≡ false
      → All (IsApart w b) l
  unfolding contains
  other_paths w b p [] at h out = tt
  other_paths w b p ((q, c) ∷ l) at h out =
      (other_path w b c p q at h.0 (ground arith), other_paths w b p l at h.1 (ground arith))

  others_has :
      (w : WatchDog FilePath Object) (b : ℕ) (l : List (FilePath × ℕ))
      → All (IsApart w b) l
      → has b (addresses l) ≡ false
  unfolding IsApart
  others_has w b [] h = refl
  others_has w b ((q, c) ∷ l) h = ground (arith, h.0.0, others_has w b l h.1)

  others_info :
      (w : WatchDog FilePath Object) (b i : ℕ) (l : List (FilePath × ℕ))
      → (w.files b).file_info ≡ some i
      → All (IsApart w b) l
      → All (λ (e : FilePath × ℕ). (w.files e.1).file_info ≢ some i) l
  unfolding IsApart
  others_info w b i [] g h = tt
  others_info w b i ((q, c) ∷ l) g h = (λ e. h.0.1 i e g, others_info w b i l g h.1)

  after-others :
      (w : WatchDog FilePath Object) (b i : ℕ) (l : List (FilePath × ℕ))
      → All (λ (e : FilePath × ℕ). (w.files e.1).file_info ≢ some i) l
      → All (λ (e : FilePath × ℕ). ((after dec load stat w b).files e.1).file_info ≢ some i) l
  after-others w b i [] h = tt
  after-others w b i ((q, c) ∷ l) h =
      (λ e. h.0 (sym (after-file_info dec load stat w b c) ∙ e), after-others w b i l h.1)

  after-Registered :
      (w : WatchDog FilePath Object) (b : ℕ) (l : List (FilePath × ℕ))
      → Registered w l
      → Registered (after dec load stat w b) l
  after-Registered w b [] h = tt
  after-Registered w b ((q, c) ∷ l) h =
      (after-path dec load stat w b c ∙ h.0, after-Registered w b l h.1)

  -- A file that is apart from `b` is reloaded after `b` as it would be before.
  later-IsReloaded :
      (w w' : WatchDog FilePath Object) (b : ℕ) (l : List (FilePath × ℕ))
      → Registered w l
      → All (IsApart w b) l
      → All (λ (e : FilePath × ℕ). IsReloaded (after dec load stat w b) w' e.1) l
      → All (λ (e : FilePath × ℕ). IsReloaded w w' e.1) l
  unfolding IsApart
  later-IsReloaded w w' b [] r d h = tt
  later-IsReloaded w w' b ((q, c) ∷ l) r d h =
      let (i, at) = record-of w c q r.0 in
      let v = after dec load stat w b in
      let kept : v.files c ≡ w.files c = rw (d.0.0) refl in
      let (file, info) =
        reloaded-local dec load stat w.infos v.infos (w.files c) i at
          (stamped-other dec load stat w.infos (w.files b) i (d.0.1 i at)) in
      (
        (
          h.0.0 ∙ ap (reloaded dec load stat v.infos) kept ∙ file,
          λ j at'.
              let same : i ≡ j = ground (arith, at, at') in
              h.0.1 j (ap (λ f. f.file_info) kept ∙ at')
              ∙ ap (λ f. stamped dec load stat v.infos f j) kept
              ∙ subst
                  (λ k.
                    stamped dec load stat v.infos (w.files c) k
                    ≡ stamped dec load stat w.infos (w.files c) k)
                  same info,
        ),
        later-IsReloaded w w' b l r.1 d.1 h.1,
      )

  pub try_files-Reloads :
      (l : List (FilePath × ℕ)) (w : WatchDog FilePath Object)
      → Registered w l
      → Keyed dec l
      → (files' : ℕ → ReloadableFile Object) × (infos' : ℕ → FileInfo FilePath) × (try_files dec
            load stat l w
          ≡ some (record w { files = files'; infos = infos' }))
        × Reloads w (record w { files = files'; infos = infos' }) l
        × ((a : ℕ) → path_of infos' (files' a) ≡ path_of w.infos (w.files a))
  unfolding try_files
  try_files-Reloads [] w h k = (
    w.files,
    w.infos,
    refl,
    record { watched = tt; other_files = λ a e. refl; other_infos = λ i e. refl },
    λ a. refl,
  )
  try_files-Reloads ((p, b) ∷ l) w h k =
      let apart = other_paths w b p l h.0 h.1 k.0 in
      let v = after dec load stat w b in
      let (files', infos', ran, r, paths) =
        try_files-Reloads l v (after-Registered w b l h.1) k.1 in
      let w' : WatchDog FilePath Object = record w { files = files'; infos = infos' } in
      let self : v.files b ≡ reloaded dec load stat w.infos (w.files b) =
        (let e : (b == b) ≡ true = ground arith in rw e refl) in
      (
        files',
        infos',
        rw (try_file-after dec load stat w b p h.0, try_files) ran,
        record {
          watched = (
            (
              r.other_files b (others_has w b l apart) ∙ self,
              λ i at. r.other_infos i (after-others w b i l (others_info w b i l at apart)),
            ),
            later-IsReloaded w w' b l h.1 apart r.watched,
          );
          other_files = λ a e.
              let ne : (a == b) ≡ false = ground (arith, e) in
              r.other_files a (ground (arith, e)) ∙ rw ne refl;
          other_infos = λ i e.
              r.other_infos i (after-others w b i l e.1)
              ∙ stamped-other dec load stat w.infos (w.files b) i e.0;
        },
        λ a. paths a ∙ after-path dec load stat w b a,
      )
