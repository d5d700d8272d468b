-- ===== src/Tests/Reloaders.antt =====
-- The theorems on cpp_lib/reloader at concrete inputs. Paths are numbers.
use native.Mathlib.Decide.{ℕ_discrete}
use cpp_lib.Prelude.{
  ℕ, ◌+◌, ◌≡◌, ◌≢◌, ◌⊎◌, refl, Bool, true, false, Option, some, [], ◌∷◌, ◌++◌, ltb, ◌==◌,
  if◌then◌else◌, update, not,
}
use cpp_lib.Reloader.File.{
  StatusType, FileInfo, load_failed, stone_ok, ReloadableFile, Stat, Outcome, reload, try_load,
}
use cpp_lib.Reloader.File.TryLoad.{notified, try_load-outcome}
use cpp_lib.Reloader.Config
use cpp_lib.Reloader.Config.{Config, current, load_json, parse_json_failed_error, load_json_shared}
use cpp_lib.Reloader.WatchDog.{
  WatchDog, created, assign, try_file, done, contains, watch_check, watch_commit, run_round,
}
use cpp_lib.Reloader.WatchDog.Reach.{Reach, here, next, committed, active, Reach-round}
use cpp_lib.Reloader.WatchDog.Reloads.{Reloads}
use cpp_lib.Reloader.WatchDog.Watch.{watch_overlap}

-- A `Load` that fails on an empty file, and otherwise counts the loads.
abbrev load : ℕ → ℕ → ℕ → ℕ × ℕ
load path length object = if length == 0 then (7, object) else (0, object + 1)

abbrev stat : ℕ → Option Stat
stat path = some (record { mtime = 50; size = path })

-- The record of each path stands at the address of the same number.
abbrev infos : ℕ → FileInfo ℕ
infos path = record { path = path; update_time = 0 }

abbrev file : ℕ → ReloadableFile ℕ
file path = record {
  status = StatusType.init;
  file_info = some path;
  callback = some (record { has_successfull_cb = true; has_failed_cb = true });
  object = 0;
}

abbrev loaded : ℕ → ReloadableFile ℕ
loaded path = (reload load infos (file path) path (record { mtime = 50; size = path })).file

abbrev read_at : ℕ → FileInfo ℕ
read_at path = record { path = path; update_time = 50 }

try_load-outcome_example :
    (o : Outcome ℕ ℕ) × (try_load load stat infos (file 0) ≡ some o)
    × (o.file.file_info ≡ (file 0).file_info)
    × (o.file.callback ≡ (file 0).callback)
    × (o.events ≡ notified (file 0).callback o.code)
    × (o.code ≢ stone_ok
        → (o.infos ≡ infos) × ((o.file.status ≡ (file 0).status) ⊎ (o.file.status ≡ load_failed)))
    × ((load' : ℕ → ℕ → ℕ → ℕ × ℕ)
        → o.code ≡ stone_ok
        → try_load load' stat o.infos o.file
          ≡ some (record {
            file = o.file;
            infos = o.infos;
            code = stone_ok;
            events = notified (file 0).callback stone_ok;
          }))
try_load-outcome_example = try_load-outcome load stat infos (file 0) 0 refl

-- A parser that accepts positive contents.
abbrev parse : ℕ → ℕ → Bool × ℕ
parse content object = (ltb 0 content, content)

abbrev init_object : ℕ → Bool × ℕ
init_object object = (true, object + 1)

load_json_shared_example :
    let r = load_json (λ (p : ℕ). p) parse init_object 0 1 (Config.init 8 (λ a. 3)) in
    (r.0 ≡ parse_json_failed_error) × (current r.1 ≡ (parse 0 3).1)
load_json_shared_example = load_json_shared (λ (p : ℕ). p) parse init_object 0 1 8 (λ a. 3) refl

-- The file 1 under the path 1 is watched; the files 2 and 12 share the record of the path 2.
abbrev dog : WatchDog ℕ ℕ
dog = record {
  stop = false;
  watched_files = (1, 1) ∷ [];
  files = λ a. file (if a == 12 then 2 else a);
  infos = infos;
}

not_watched : contains ℕ_discrete 2 dog.watched_files ≡ false
unfolding contains ℕ_discrete
not_watched = refl

abbrev first_commit : WatchDog ℕ ℕ
first_commit = record dog {
  files = update dog.files 2 (loaded 2);
  infos = update infos 2 (read_at 2);
  watched_files = (1, 1) ∷ (2, 2) ∷ [];
}

-- The file 12 is not loaded, since the file 2 has already put the new time into their record.
abbrev second_commit : WatchDog ℕ ℕ
second_commit = record first_commit {
  files = update first_commit.files 12 (file 2);
  watched_files = (1, 1) ∷ (2, 12) ∷ [];
}

commits :
    (watch_commit ℕ_discrete load stat dog 2 ≡ some first_commit)
    × (watch_commit ℕ_discrete load stat first_commit 12 ≡ some second_commit)
unfolding watch_commit try_file assign try_load reload ℕ_discrete
commits = (refl, refl)

watch_overlap_example :
    (watch_check ℕ_discrete load stat dog (some 2) ≡ some done)
    × (watch_check ℕ_discrete load stat dog (some 12) ≡ some done)
    × (second_commit.watched_files ≡ dog.watched_files ++ ((2, 12) ∷ []))
watch_overlap_example =
    watch_overlap ℕ_discrete load stat dog first_commit second_commit 2 12 2 refl refl not_watched
      commits.0 commits.1

-- The dog of the files of `dog` watches the files 1, 2 and 12, and then runs a round.
abbrev three_commits : WatchDog ℕ ℕ
three_commits = record {
  stop = false;
  watched_files = (1, 1) ∷ (2, 12) ∷ [];
  files = update (update (update dog.files 1 (loaded 1)) 2 (loaded 2)) 12 (file 2);
  infos = update (update infos 1 (read_at 1)) 2 (read_at 2);
}

reached : Reach ℕ_discrete load (created dog.files infos) three_commits
unfolding created watch_commit try_file assign try_load reload ℕ_discrete
reached =
    next (next (next here (committed stat 1 refl)) (committed stat 2 refl)) (committed stat 12 refl)

Reach-round_example :
    (files' : ℕ → ReloadableFile ℕ) × (infos' : ℕ → FileInfo ℕ) × (run_round ℕ_discrete load stat
        three_commits
      ≡ some (record three_commits { files = files'; infos = infos' }, not three_commits.stop))
    × Reloads ℕ_discrete load stat three_commits
        (record three_commits { files = files'; infos = infos' })
        (active three_commits)
Reach-round_example = Reach-round ℕ_discrete load dog.files infos three_commits reached stat
