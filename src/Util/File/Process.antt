-- ===== src/Util/File/Process.antt =====
-- What cpp_lib/util/file/file.cc asks of single files and of the running process: `IsExec`,
-- `AbsolutePath`, `GetCurrentExecuteFile` and `GetOpenFds`.
use Prim.Native.Nat.{bit_and}
use cpp_lib.Prelude.{
  ℕ, zero, suc, ◌-◌, ◌^◌, ◌≤◌, ◌≡◌, refl, Bool, true, false, not, ◌&&◌, Option, none, some, List,
  [], ◌∷◌, ◌++◌, map, length, take, take-append, drop, leb, ltb, ◌==◌, if◌then◌else◌, arith,
}
use cpp_lib.Util.File.{Bytes, FileSystem, is_file_exist}
use cpp_lib.Util.File.Listing.{is_dots}

module _ (os : FileSystem) where
  open os use {State, entries}

  -- `mode` is `st_mode`, `none` where `stat` fails. `S_IEXEC` is the bit of the owner.
  unfoldable pub is_exec : (Bytes → Option ℕ) → State → Bytes → Bool
  is_exec mode s path =
      if is_file_exist os s path
      then elim (mode path) [
        | none ↦ false
        | some st_mode ↦ if ltb 0 st_mode && not (bit_and 64 st_mode == 0) then true else false
      ]
      else false

  -- The names that `readdir` gives, without "." and "..".
  unfoldable pub names : List Bytes → List Bytes
  names [] = []
  names (name ∷ rest) = let others = names rest in if is_dots name then others else name ∷ others

  -- `procpath` is the printed path of the directory, `atoi` the C library's.
  unfoldable pub get_open_fds : (Bytes → ℕ) → State → Bytes → List ℕ → List ℕ
  get_open_fds atoi s procpath fds = elim (entries s procpath) [
    | none ↦ fds
    | some ds ↦ fds ++ map atoi (names ds)
  ]

-- `realpath`, `none` for a null pointer; a string is then made of that pointer.
unfoldable pub absolute_path : (Bytes → Option Bytes) → Bytes → Option Bytes
absolute_path realpath path = realpath path

abbrev pub zeros : ℕ → Bytes
zeros zero = []
zeros (suc n) = 0 ∷ zeros n

-- `ss` after `readlink`, and the `uint32_t` that it returns.
abbrev pub buffer : Option Bytes → Bytes
buffer none = zeros 1024
buffer (some target) = target ++ drop (length target) (zeros 1024)

abbrev pub returned : Option Bytes → ℕ
returned none = 2 ^ 32 - 1
returned (some target) = length target

-- `link` is what `readlink` reads, at most 1024 bytes, and `none` where it fails.
unfoldable pub get_current_execute_file : Option Bytes → Bytes
get_current_execute_file link =
    let ss = buffer link in
    let len = returned link in let len' = if leb 1024 len then 1024 else len in take len' ss

abbrev pub target_or_zeros : Option Bytes → Bytes
target_or_zeros none = zeros 1024
target_or_zeros (some target) = target

-- `GetCurrentExecuteFile` gives the target of the link, of at most 1024 bytes, and where `readlink`
-- fails a string of 1024 zeros.
pub get_current_execute_file-target :
    (link : Option Bytes)
    → length (target_or_zeros link) ≤ 1024
    → get_current_execute_file link ≡ target_or_zeros link
unfolding get_current_execute_file
get_current_execute_file-target none h = refl
get_current_execute_file-target (some target) h =
    let fits : (if leb 1024 (length target) then 1024 else length target) ≡ length target =
      ground arith in
    rw fits (take-append target (drop (length target) (zeros 1024)))
