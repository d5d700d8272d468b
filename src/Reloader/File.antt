-- ===== src/Reloader/File.antt =====
-- `ReloadableFile` and `MMapData` of cpp_lib/reloader/reloadable_file.cc. `stat`, `mmap` and
-- `munmap` are the operating system's: what they return is an argument.
pub mod Mapping
pub mod TryLoad
use cpp_lib.Prelude.{
  ℕ, ◌+◌, ◌≤◌, ◌≡◌, Bool, true, false, Option, none, some, List, [], ◌∷◌, ltb, leb, ◌==◌,
  if◌then◌else◌, update,
}

pub data StatusType : Type 0 where
  un_init init loading load_failed load_succeed : StatusType

-- The codes of error_def.h that the files return.
abbrev pub stone_ok : ℕ
stone_ok = 0

abbrev pub stat_file_error : ℕ
stat_file_error = 60010002

abbrev pub uninitialized_error : ℕ
uninitialized_error = 60010005

-- The code never reads `type`, which is left out.
pub record FileInfo (FilePath : Type 0) : Type 0 where
  pub path : FilePath
  pub update_time : ℕ

-- Which of the two functions of a `LoadCallback` are set.
pub record LoadCallback : Type 0 where
  pub has_successfull_cb : Bool
  pub has_failed_cb : Bool

-- A call of one of them.
pub data Event : Type 0 where
  successfull : Event
  failed : ℕ → Event

-- `file_info` is the address of a `FileInfo`, which other files may share; the records stand in a
-- store by address. `object` is the state of the derived class, which `Load` changes.
pub record ReloadableFile (Object : Type 0) : Type 0 where
  pub status : StatusType
  pub file_info : Option ℕ
  pub callback : Option LoadCallback
  pub object : Object

-- `Path`; `none` is the read through a `file_info_` that was never set.
abbrev pub path_of :
    {FilePath Object : Type 0} → (ℕ → FileInfo FilePath) → ReloadableFile Object → Option FilePath
path_of infos f = elim f.file_info [ none ↦ none | some address ↦ some (infos address).path ]

-- What `stat` fills in.
pub record Stat : Type 0 where
  pub mtime : ℕ
  pub size : ℕ

-- What a call of `TryLoad` returns and does: the file and the store that it leaves, its result and
-- the callbacks.
pub record Outcome (FilePath Object : Type 0) : Type 0 where
  pub file : ReloadableFile Object
  pub infos : ℕ → FileInfo FilePath
  pub code : ℕ
  pub events : List Event

-- `status_ >= kInitStatusType`.
abbrev pub is_initialised : StatusType → Bool
is_initialised un_init = false
is_initialised _ = true

module _ {Object : Type 0} where
  unfoldable pub set_callback : ReloadableFile Object → Option LoadCallback → ReloadableFile Object
  set_callback f none = f
  set_callback f (some cb) = record f { callback = some cb }

  -- `Init` with a pointer to a `FileInfo`, `none` for `nullptr`, which the file shares.
  unfoldable pub init_info :
      ReloadableFile Object → Option ℕ → Option LoadCallback → ReloadableFile Object × ℕ
  init_info f file_info callback =
      (record (set_callback f callback) { file_info = file_info; status = StatusType.init }, 0)

  -- `RETURN_TRYLOAD_FAILED` and `RETURN_TRYLOAD_OK`: the code, and the callbacks that are run.
  unfoldable pub report_failed : ReloadableFile Object → ℕ → List Event
  report_failed f code = elim f.callback [
    | none ↦ []
    | some cb ↦ if cb.has_failed_cb then failed code ∷ [] else []
  ]

  unfoldable pub report_ok : ReloadableFile Object → List Event
  report_ok f = elim f.callback [
    | none ↦ []
    | some cb ↦ if cb.has_successfull_cb then successfull ∷ [] else []
  ]

module _ {FilePath Object : Type 0} where
  -- `Init` with a path: `std::make_shared` puts a new record at `address`.
  unfoldable pub init_path :
      (ℕ → FileInfo FilePath)
      → ℕ
      → ReloadableFile Object
      → FilePath
      → Option LoadCallback
      → ReloadableFile Object × (ℕ → FileInfo FilePath) × ℕ
  init_path infos address f path callback = (
    record (set_callback f callback) { file_info = some address; status = StatusType.init },
    update infos address (record { path = path; update_time = 0 }),
    0,
  )

  -- Behind the guards of `TryLoad`: the call of `Load`. The time goes to the record at `address`.
  unfoldable pub reload :
      (FilePath → ℕ → Object → ℕ × Object)
      → (ℕ → FileInfo FilePath)
      → ReloadableFile Object
      → ℕ
      → Stat
      → Outcome FilePath Object
  reload load infos f address st =
      let info = infos address in
      let (ret, object) = load info.path st.size f.object in
      if ret == stone_ok
      then record {
        file = record f { status = load_succeed; object = object };
        infos = update infos address (record info { update_time = st.mtime });
        code = stone_ok;
        events = report_ok f;
      }
      else record {
        file = record f { status = load_failed; object = object };
        infos = infos;
        code = ret;
        events = report_failed f ret;
      }

  -- `none` is the read of a `file_info_` that was never set.
  unfoldable pub try_load :
      (FilePath → ℕ → Object → ℕ × Object)
      → (FilePath → Option Stat)
      → (ℕ → FileInfo FilePath)
      → ReloadableFile Object
      → Option (Outcome FilePath Object)
  try_load load stat infos f =
      if is_initialised f.status
      then elim f.file_info [
        | none ↦ none
        | some address ↦ elim (stat (infos address).path) [
          | none ↦ some (record {
            file = f;
            infos = infos;
            code = stat_file_error;
            events = report_failed f stat_file_error;
          })
          | some st ↦
              if leb st.mtime (infos address).update_time
              then some (record { file = f; infos = infos; code = stone_ok; events = report_ok f })
              else some (reload load infos f address st)
        ]
      ]
      else some (record {
        file = f;
        infos = infos;
        code = uninitialized_error;
        events = report_failed f uninitialized_error;
      })

-- `MMapData`: `data_` is `none` for `nullptr`.
pub record MMapData : Type 0 where
  pub map_data : Option ℕ
  pub length : ℕ

-- `munmap_fails` is the result of the system call, if it is made.
unfoldable pub munmap : Bool → MMapData → MMapData × Bool
munmap munmap_fails m = elim m.map_data [
  | none ↦ (m, true)
  | some p ↦ if munmap_fails then (m, false) else (record { map_data = none; length = 0 }, true)
]

-- `mapped` is what `mmap` returns, `none` for its error value. The result is 0, or 1 for -1.
unfoldable pub mmap : Bool → Option ℕ → ℕ → MMapData → MMapData × ℕ
mmap munmap_fails mapped length m =
    let (m', released) = munmap munmap_fails m in
    if released
    then elim mapped [
      | none ↦ (m', 1)
      | some p ↦ (record { map_data = some p; length = length }, 0)
    ]
    else (m', 1)
