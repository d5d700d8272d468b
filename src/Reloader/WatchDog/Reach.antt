-- ===== src/Reloader/WatchDog/Reach.antt =====
-- The calls of `ReloadFilesWatchDog` of cpp_lib/reloader/watchdog.cc one after the other, each lock
-- scope a step of its own: the second half of any `Watch` may come at any time after its check.
-- The files on the disk may change from step to step, the path of a file object does not.
use mathlib.Core.Path.{subst}
use cpp_lib.Prelude.{
  ℕ, ◌≡◌, refl, sym, ap, ◌∙◌, inl, inr, Bool, not, Option, some, List, [], Bool-cases,
  if◌then◌else◌,
}
use cpp_lib.Reloader.File.{FileInfo, ReloadableFile, Stat}
use cpp_lib.Reloader.WatchDog.{WatchDog, created, assign, watch_commit, cancel, stop_all, run_round}
use cpp_lib.Reloader.WatchDog.Rounds.{after}
use cpp_lib.Reloader.WatchDog.Reloads.{Reloads}
use cpp_lib.Reloader.WatchDog.Kept.{
  IsKept, committed-IsKept, watch_commit-path, cancel-IsKept, stop_all-IsKept, run_round-stopped,
  run_round-Reloads, ran-IsKept, created-IsKept,
}
use cpp_lib.Reloader.WatchDog.Watch.{watch_commit-some}

-- The files of a round.
abbrev pub active : {FilePath Object : Type 0} → WatchDog FilePath Object → List (FilePath × ℕ)
active w = if w.stop then [] else w.watched_files

module _ {FilePath : Type 0} (dec : Discrete FilePath) {Object : Type 0}
    (load : FilePath → ℕ → Object → ℕ × Object) where
  pub data Step : WatchDog FilePath Object → WatchDog FilePath Object → Type 0 where
    committed :
        {w w' : WatchDog FilePath Object} (stat : FilePath → Option Stat) (a : ℕ)
        → watch_commit dec load stat w a ≡ some w'
        → Step w w'
    cancelled :
        {w : WatchDog FilePath Object} (stat : FilePath → Option Stat) (path : FilePath)
        → Step w (cancel dec load stat w path).0
    stopped :
        {w : WatchDog FilePath Object} (stat : FilePath → Option Stat)
        → Step w (stop_all dec load stat w)
    ran :
        {w w' : WatchDog FilePath Object} (stat : FilePath → Option Stat) (goes_on : Bool)
        → run_round dec load stat w ≡ some (w', goes_on)
        → Step w w'

  pub data Reach (w : WatchDog FilePath Object) : WatchDog FilePath Object → Type 0 where
    here : Reach w w
    next : {v u : WatchDog FilePath Object} → Reach w v → Step v u → Reach w u

  Step-IsKept :
      {w w' : WatchDog FilePath Object} → Step w w' → IsKept dec load w → IsKept dec load w'
  Step-IsKept {w} {w'} (committed stat a e) i =
      let (p, at) = watch_commit-path dec load stat w w' a e in
      let same : record (after dec load stat w a) { watched_files = assign dec p a w.watched_files }
          ≡ w' =
        cc (watch_commit-some dec load stat w a p at, e) in
      subst (IsKept dec load) same (committed-IsKept dec load stat w a p at i)
  Step-IsKept {w} {w'} (cancelled stat path) i = cancel-IsKept dec load stat w path i
  Step-IsKept {w} {w'} (stopped stat) i = stop_all-IsKept dec load stat w i
  Step-IsKept {w} {w'} (ran stat goes_on e) i = ran-IsKept dec load stat w w' goes_on e i

  Reach-IsKept :
      {w w' : WatchDog FilePath Object} → Reach w w' → IsKept dec load w → IsKept dec load w'
  Reach-IsKept here i = i
  Reach-IsKept (next r s) i = Step-IsKept s (Reach-IsKept r i)

  -- In every state that second halves of `Watch` at any time, `Cancel`, `Stop` and rounds of
  -- `Run` reach from a dog without files, a round of `Run` does not fault, and goes on exactly if
  -- the dog is not stopped. If it is not, each watched file and its `FileInfo` are afterwards as
  -- one `TryLoad` in the state before the round makes them, every file that is not watched is as
  -- before, and so is every `FileInfo` that no watched file has; if it is stopped, nothing
  -- changes.
  pub Reach-round :
      (files : ℕ → ReloadableFile Object) (infos : ℕ → FileInfo FilePath)
      (w : WatchDog FilePath Object)
      → Reach (created files infos) w
      → (stat : FilePath → Option Stat)
      → (files' : ℕ → ReloadableFile Object) × (infos' : ℕ → FileInfo FilePath) × (run_round dec
            load stat w
          ≡ some (record w { files = files'; infos = infos' }, not w.stop))
        × Reloads dec load stat w (record w { files = files'; infos = infos' }) (active w)
  Reach-round files infos w r stat =
      let i = Reach-IsKept r (created-IsKept dec load files infos) in
      elim (Bool-cases w.stop) [
        | inl stop ↦ (
          w.files,
          w.infos,
          run_round-stopped dec load stat w stop ∙ ap (λ b. some (w, not b)) (sym stop),
          subst (Reloads dec load stat w w) (sym (ap (λ b. if b then [] else w.watched_files) stop))
              (record { watched = tt; other_files = λ a e. refl; other_infos = λ j e. refl }),
        )
        | inr going ↦
            let (files', infos', round, reloads, paths) =
              run_round-Reloads dec load stat w i going in
            let v : WatchDog FilePath Object = record w { files = files'; infos = infos' } in
            (
              files',
              infos',
              round ∙ ap (λ b. some (v, not b)) (sym going),
              subst (Reloads dec load stat w v)
                  (sym (ap (λ b. if b then [] else w.watched_files) going)) reloads,
            )
      ]
