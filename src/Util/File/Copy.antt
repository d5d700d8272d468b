-- ===== src/Util/File/Copy.antt =====
-- `FileCopy` and `DirCopy` of cpp_lib/util/file/file.cc. The results of the system calls `read` and
-- `write` are lists, in the order of the calls.
pub mod Content
use mathlib.Core.List.{append-nil, append_assoc}
use cpp_lib.Prelude.{
  ℕ, zero, suc, ◌+◌, ◌-◌, ◌≤◌, ◌<◌, ◌≡◌, refl, ap, ◌∙◌, sym, Bool, true, false, ◌&&◌, Bool-cases,
  Option, none, some, Option-cases, inl, inr, List, [], ◌∷◌, ◌++◌, map, All, length, take, drop,
  ◌==◌, if◌then◌else◌, arith,
}
use cpp_lib.Util.File.{Bytes, FileSystem, Kind, directory}
use cpp_lib.Util.File.Listing.{join, is_directory, recursive_list_all_files, list_all_files}
use cpp_lib.Util.File.Make.{make_file}

-- A call of `read` fills the buffer with the bytes, none at the end of the file, or fails.
pub data Read : Type 0 where
  chunk : Bytes → Read
  read_failed : Read

-- A call of `write` takes a number of the bytes that are left, is interrupted, or fails.
pub data Write : Type 0 where
  wrote : ℕ → Write
  interrupted : Write
  write_failed : Write

-- The inner loop, on the bytes of the buffer that are left: whether it ended without a jump to
-- `out_error`, the results of the calls to come, and what stands in the file. `none` if there are
-- no results left.
unfoldable pub write_chunk : List Write → Bytes → Bytes → Option (Bool × List Write × Bytes)
write_chunk [] buf out = none
write_chunk (interrupted ∷ ws) buf out = write_chunk ws buf out
write_chunk (write_failed ∷ ws) buf out = some (false, ws, out)
write_chunk (wrote n ∷ ws) buf out = elim (drop n buf) [
  | [] ↦ some (true, ws, out ++ take n buf)
  | b ∷ bs ↦ write_chunk ws (drop n buf) (out ++ take n buf)
]

-- The outer loop: the result of the function as far as the loop decides it.
unfoldable pub copy_chunks : List Read → List Write → Bytes → Option (Bool × Bytes)
copy_chunks [] ws out = none
copy_chunks (read_failed ∷ rs) ws out = some (false, out)
copy_chunks (chunk [] ∷ rs) ws out = some (true, out)
copy_chunks (chunk (b ∷ bs) ∷ rs) ws out = elim (write_chunk ws (b ∷ bs) out) [
  | none ↦ none
  | some (false, ws', out') ↦ some (false, out')
  | some (true, ws', out') ↦ copy_chunks rs ws' out'
]

-- `FileCopy`: the result, and the contents of the destination if it was made. The first three
-- arguments say whether the two calls of `open` and the `close` of the copy succeed.
unfoldable pub file_copy :
    Bool → Bool → Bool → List Read → List Write → Option (Bool × Option Bytes)
file_copy opened_src opened_dst closed rs ws =
    if opened_src
    then (if opened_dst
        then elim (copy_chunks rs ws []) [
          | none ↦ none
          | some (read_all, out) ↦ some (read_all && closed, some out)
        ]
        else some (false, none))
    else some (false, none)

module _ (os : FileSystem) (copy : os.State → Bytes → Bytes → os.State × Bool) where
  open os use {State, kind_of, entries}

  -- The loop of `DirCopy`; `copy` is `FileCopy` as a change of the file system.
  unfoldable pub copy_files : State → Bytes → Bytes → List Bytes → Option (State × Bool)
  copy_files s src dst [] = some (s, true)
  copy_files s src dst (f ∷ fs) = elim (make_file os s (join dst f)) [
    | none ↦ none
    | some (s', false) ↦ some (s', false)
    | some (s', true) ↦
        let (s'', copied) = copy s' (join src f) (join dst f) in
        elim copied [ true ↦ copy_files s'' src dst fs | false ↦ some (s'', false) ]
  ]

  unfoldable pub dir_copy : ℕ → State → Bytes → Bytes → Option (State × Bool)
  dir_copy n s src dst = elim (list_all_files os n s src []) [
    | none ↦ none
    | some (false, fs) ↦ some (s, false)
    | some (true, fs) ↦ copy_files s src dst fs
  ]
