-- ===== src/Reloader/WatchDog/Watch.antt =====
-- `Watch` of cpp_lib/reloader/watchdog.cc: a path that is new, a path that is watched, and two calls
-- that overlap.
use mathlib.Core.Path.{subst}
use cpp_lib.Prelude.{
  ℕ, ◌≡◌, refl, sym, ◌∙◌, true, false, Option, none, some, List, [], ◌∷◌, ◌++◌, arith,
  if◌then◌else◌,
}
use cpp_lib.Reloader.File.{path_of, Stat}
use cpp_lib.Reloader.WatchDog.{
  WatchDog, done, refused, contains, assign, watch_check, watch_commit, watch,
}
use cpp_lib.Reloader.WatchDog.Rounds.{after, try_file-after, after-path}

module _ {FilePath : Type 0} (dec : Discrete FilePath) {Object : Type 0}
    (load : FilePath → ℕ → Object → ℕ × Object) (stat : FilePath → Option Stat) where
  assign-append :
      (l : List (FilePath × ℕ)) (p : FilePath) (a : ℕ)
      → contains dec p l ≡ false
      → assign dec p a l ≡ l ++ ((p, a) ∷ [])
  unfolding contains assign
  assign-append [] p a out = refl
  assign-append ((q, b) ∷ l) p a out = ground (arith, assign-append l p a)

  watch_check-some :
      (w : WatchDog FilePath Object) (a : ℕ) (p : FilePath)
      → path_of w.infos (w.files a) ≡ some p
      → watch_check dec load stat w (some a)
        ≡ some (if contains dec p w.watched_files then refused else done)
  unfolding watch_check
  watch_check-some w a p at = ground arith

  pub watch_commit-some :
      (w : WatchDog FilePath Object) (a : ℕ) (p : FilePath)
      → path_of w.infos (w.files a) ≡ some p
      → watch_commit dec load stat w a
        ≡ some (record (after dec load stat w a) { watched_files = assign dec p a w.watched_files })
  unfolding watch_commit
  watch_commit-some w a p at =
      let v = after dec load stat w a in
      let path : path_of v.infos (v.files a) ≡ some p = after-path dec load stat w a a ∙ at in
      rw (try_file-after dec load stat w a p at, watch_commit, path) refl

  -- `Watch` of a file whose path is not watched loads it once, adds it behind the others and
  -- returns 0.
  pub watch-new :
      (w : WatchDog FilePath Object) (a : ℕ) (p : FilePath)
      → path_of w.infos (w.files a) ≡ some p
      → contains dec p w.watched_files ≡ false
      → watch dec load stat w (some a)
        ≡ some (
          record (after dec load stat w a) { watched_files = w.watched_files ++ ((p, a) ∷ []) },
          done,
        )
  unfolding watch
  watch-new w a p at new =
      rw
        (
          watch_check-some w a p at,
          new,
          watch,
          watch_commit-some w a p at,
          assign-append w.watched_files p a new,
        )
        refl

  -- `Watch` of a file whose path is watched, or of a null pointer, returns -1 and changes
  -- nothing.
  pub watch-refused :
      (w : WatchDog FilePath Object) (a : ℕ) (p : FilePath)
      → path_of w.infos (w.files a) ≡ some p
      → contains dec p w.watched_files ≡ true
      → (watch dec load stat w (some a) ≡ some (w, refused))
        × (watch dec load stat w none ≡ some (w, refused))
  unfolding watch
  watch-refused w a p at old = (rw (watch_check-some w a p at, old, watch) refl, refl)

  assign-overwrite :
      (l : List (FilePath × ℕ)) (p : FilePath) (a b : ℕ)
      → contains dec p l ≡ false
      → assign dec p b (l ++ ((p, a) ∷ [])) ≡ l ++ ((p, b) ∷ [])
  unfolding contains assign
  assign-overwrite [] p a b out = ground arith
  assign-overwrite ((q, c) ∷ l) p a b out = ground (arith, assign-overwrite l p a b)

  -- Two `Watch` calls for files of one path that is not watched, of which both check before
  -- either commits, both pass the check, and the second file takes the place of the first in the
  -- map.
  pub watch_overlap :
      (w w₁ w₂ : WatchDog FilePath Object) (a b : ℕ) (p : FilePath)
      → path_of w.infos (w.files a) ≡ some p
      → path_of w.infos (w.files b) ≡ some p
      → contains dec p w.watched_files ≡ false
      → watch_commit dec load stat w a ≡ some w₁
      → watch_commit dec load stat w₁ b ≡ some w₂
      → (watch_check dec load stat w (some a) ≡ some done)
        × (watch_check dec load stat w (some b) ≡ some done)
        × (w₂.watched_files ≡ w.watched_files ++ ((p, b) ∷ []))
  watch_overlap w w₁ w₂ a b p at at' new first second =
      let d : WatchDog FilePath Object = record (after dec load stat w a) {
        watched_files = assign dec p a w.watched_files;
      } in
      let same : d ≡ w₁ = cc (watch_commit-some w a p at, first) in
      let second' = subst (λ x. watch_commit dec load stat x b ≡ some w₂) (sym same) second in
      let path : path_of d.infos (d.files b) ≡ some p = after-path dec load stat w a b ∙ at' in
      (
        rw (watch_check-some w a p at, new) refl,
        rw (watch_check-some w b p at', new) refl,
        cc (
          watch_commit-some d b p path,
          second',
          assign-append w.watched_files p a new,
          assign-overwrite w.watched_files p a b new,
        ),
      )
