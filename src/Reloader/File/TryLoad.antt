-- ===== src/Reloader/File/TryLoad.antt =====
-- `TryLoad` of cpp_lib/reloader/reloadable_file.cc on every branch.
use cpp_lib.Prelude.{
  ℕ, ◌≡◌, ◌≢◌, ◌⊎◌, Option, none, some, Option-cases, inl, inr, List, [], ◌∷◌, arith, ◌==◌,
  if◌then◌else◌,
}
use cpp_lib.Reloader.File.{
  FileInfo, LoadCallback, Event, successfull, failed, load_failed, stone_ok, ReloadableFile, Stat,
  report_failed, report_ok, Outcome, reload, try_load,
}

-- The calls of the callbacks that go with a returned code, those that are set.
abbrev pub notified : Option LoadCallback → ℕ → List Event
notified none code = []
notified (some cb) code =
    if code == 0
    then (if cb.has_successfull_cb then successfull ∷ [] else [])
    else (if cb.has_failed_cb then failed code ∷ [] else [])

module _ {FilePath Object : Type 0} (load : FilePath → ℕ → Object → ℕ × Object)
    (stat : FilePath → Option Stat) (infos : ℕ → FileInfo FilePath) (f : ReloadableFile Object)
    {o : Outcome FilePath Object} (ran : try_load load stat infos f ≡ some o) where
  -- The callbacks that are run are those that go with the returned code.
  try_load-events : o.events ≡ notified f.callback o.code
  unfolding try_load reload report_ok report_failed
  try_load-events = ground arith

  -- A call of `TryLoad` that returns an error leaves every `FileInfo`, and the status is as before
  -- or `kLoadFailedStatusType`.
  try_load_failed :
      o.code ≢ stone_ok
      → (o.infos ≡ infos) × ((o.file.status ≡ f.status) ⊎ (o.file.status ≡ load_failed))
  unfolding try_load reload
  try_load_failed h = ground arith

  try_load-settings : (o.file.file_info ≡ f.file_info) × (o.file.callback ≡ f.callback)
  unfolding try_load reload
  try_load-settings = ground arith

  -- After a call of `TryLoad` that returned `kStoneOK`, a call on the unchanged file does not
  -- load: it returns `kStoneOK`, runs the callback of success and leaves the file as it is,
  -- whatever `Load` would do.
  try_load_again :
      (load' : FilePath → ℕ → Object → ℕ × Object)
      → o.code ≡ stone_ok
      → try_load load' stat o.infos o.file
        ≡ some (record {
          file = o.file;
          infos = o.infos;
          code = stone_ok;
          events = notified f.callback stone_ok;
        })
  unfolding try_load reload report_ok
  try_load_again load' h = ground arith

module _ {FilePath Object : Type 0} (load : FilePath → ℕ → Object → ℕ × Object)
    (stat : FilePath → Option Stat) (infos : ℕ → FileInfo FilePath)
    (f : ReloadableFile Object) where
  try_load-ends :
      (address : ℕ)
      → f.file_info ≡ some address
      → (o : Outcome FilePath Object) × (try_load load stat infos f ≡ some o)
  unfolding try_load
  try_load-ends address at = elim (Option-cases (try_load load stat infos f)) [
    | inl e ↦ absurd (ground arith)
    | inr found ↦ found
  ]

  -- `TryLoad` of a file that has its `FileInfo` does not fault, leaves which `FileInfo` and which
  -- callbacks the file has, and runs exactly the callback that goes with the code that it
  -- returns, if it is set. If the code is an error, every `FileInfo` stays as it is, and the
  -- status stays or becomes `kLoadFailedStatusType`. Otherwise a second `TryLoad` on the
  -- unchanged file does not load: it returns `kStoneOK`, runs the callback of success and changes
  -- nothing, whatever `Load` would do.
  pub try_load-outcome :
      (address : ℕ)
      → f.file_info ≡ some address
      → (o : Outcome FilePath Object) × (try_load load stat infos f ≡ some o)
        × (o.file.file_info ≡ f.file_info)
        × (o.file.callback ≡ f.callback)
        × (o.events ≡ notified f.callback o.code)
        × (o.code ≢ stone_ok
            → (o.infos ≡ infos) × ((o.file.status ≡ f.status) ⊎ (o.file.status ≡ load_failed)))
        × ((load' : FilePath → ℕ → Object → ℕ × Object)
            → o.code ≡ stone_ok
            → try_load load' stat o.infos o.file
              ≡ some (record {
                file = o.file;
                infos = o.infos;
                code = stone_ok;
                events = notified f.callback stone_ok;
              }))
  try_load-outcome address at =
      let (o, ran) = try_load-ends address at in
      let (same_info, same_callback) = try_load-settings load stat infos f ran in
      (
        o,
        ran,
        same_info,
        same_callback,
        try_load-events load stat infos f ran,
        try_load_failed load stat infos f ran,
        try_load_again load stat infos f ran,
      )
