-- ===== src/Reloader/WatchDog.antt =====
-- `ReloadFilesWatchDog` of cpp_lib/reloader/watchdog.cc. The files, and the records that they point
-- to, stand in stores by address, as they are shared with their owners.
pub mod Kept
pub mod Reach
pub mod Rounds
pub mod Reloads
pub mod Watch
use mathlib.Core.Logic.{ite}
use cpp_lib.Prelude.{
  ℕ, ◌≡◌, Bool, true, false, Option, none, some, List, [], ◌∷◌, if◌then◌else◌, update,
}
use cpp_lib.Reloader.File.{FileInfo, ReloadableFile, path_of, Stat, Outcome, try_load}

pub record WatchDog (FilePath Object : Type 0) : Type 0 where
  pub stop : Bool
  pub watched_files : List (FilePath × ℕ)
  pub files : ℕ → ReloadableFile Object
  pub infos : ℕ → FileInfo FilePath

-- 0 and -1.
pub data Result : Type 0 where
  done refused : Result

-- The dog as it is constructed, without the start of its thread.
unfoldable pub created :
    {FilePath Object : Type 0}
    → (ℕ → ReloadableFile Object)
    → (ℕ → FileInfo FilePath)
    → WatchDog FilePath Object
created files infos = record { stop = false; watched_files = []; files = files; infos = infos }

module _ {FilePath : Type 0} (dec : Discrete FilePath) where
  -- `watched_files_.count(path) > 0`.
  unfoldable pub contains : FilePath → List (FilePath × ℕ) → Bool
  contains path [] = false
  contains path ((p, a) ∷ rest) = ite (dec p path) true (contains path rest)

  -- `watched_files_[path] = file`.
  unfoldable pub assign : FilePath → ℕ → List (FilePath × ℕ) → List (FilePath × ℕ)
  assign path address [] = (path, address) ∷ []
  assign path address ((p, a) ∷ rest) =
      ite (dec p path) ((p, address) ∷ rest) ((p, a) ∷ assign path address rest)

  unfoldable pub remove : FilePath → List (FilePath × ℕ) → List (FilePath × ℕ)
  remove path [] = []
  remove path ((p, a) ∷ rest) = ite (dec p path) rest ((p, a) ∷ remove path rest)

  module _ {Object : Type 0} (load : FilePath → ℕ → Object → ℕ × Object)
      (stat : FilePath → Option Stat) where
    -- One `TryLoad`; `none` is the read of a file without a path.
    unfoldable pub try_file : WatchDog FilePath Object → ℕ → Option (WatchDog FilePath Object)
    try_file w address = elim (try_load load stat w.infos (w.files address)) [
      | none ↦ none
      | some o ↦ some (record w { files = update w.files address o.file; infos = o.infos })
    ]

    -- The first half of `Watch`, under the shared lock.
    unfoldable pub watch_check : WatchDog FilePath Object → Option ℕ → Option Result
    watch_check w none = some refused
    watch_check w (some address) = elim (path_of w.infos (w.files address)) [
      | none ↦ none
      | some path ↦ some (if contains path w.watched_files then refused else done)
    ]

    -- The second half, under the unique lock.
    unfoldable pub watch_commit : WatchDog FilePath Object → ℕ → Option (WatchDog FilePath Object)
    watch_commit w address = elim (try_file w address) [
      | none ↦ none
      | some w' ↦ elim (path_of w'.infos (w'.files address)) [
        | none ↦ none
        | some path ↦ some (record w' { watched_files = assign path address w'.watched_files })
      ]
    ]

    -- `Watch` with no other thread between its halves.
    unfoldable pub watch :
        WatchDog FilePath Object → Option ℕ → Option (WatchDog FilePath Object × Result)
    watch w none = some (w, refused)
    watch w (some address) = elim (watch_check w (some address)) [
      | none ↦ none
      | some refused ↦ some (w, refused)
      | some done ↦ elim (watch_commit w address) [ none ↦ none | some w' ↦ some (w', done) ]
    ]

    unfoldable pub cancel : WatchDog FilePath Object → FilePath → WatchDog FilePath Object × Result
    cancel w path =
        if contains path w.watched_files
        then (record w { watched_files = remove path w.watched_files }, done)
        else (w, refused)

    unfoldable pub stop_all : WatchDog FilePath Object → WatchDog FilePath Object
    stop_all w = if w.stop then w else record w { watched_files = []; stop = true }

    -- The `for` of `Run`.
    unfoldable pub try_files :
        List (FilePath × ℕ) → WatchDog FilePath Object → Option (WatchDog FilePath Object)
    try_files [] w = some w
    try_files ((p, address) ∷ rest) w = elim (try_file w address) [
      | none ↦ none
      | some w' ↦ try_files rest w'
    ]

    -- One round of `Run`: the state, and whether the loop goes on.
    unfoldable pub run_round : WatchDog FilePath Object → Option (WatchDog FilePath Object × Bool)
    run_round w =
        if w.stop
        then some (w, false)
        else elim (try_files w.watched_files w) [ none ↦ none | some w' ↦ some (w', true) ]
