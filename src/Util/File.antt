-- ===== src/Util/File.antt =====
-- cpp_lib/util/file/file.cc. The file system is the operating system's: an interface.
pub mod Make
pub mod Listing
pub mod Copy
pub mod Process
use cpp_lib.Prelude.{ℕ, Bool, true, false, Option, none, some, List}

-- Paths and names, as bytes.
abbrev pub Bytes : Type 0
Bytes = List ℕ

-- What `stat` says of a path, besides its size.
pub data Kind : Type 0 where
  regular directory other : Kind

-- `kind_of` is `none` where `stat` fails, `entries` where `opendir` does. `create` is `open` with
-- `O_CREAT`: `none` is the result -1.
pub record FileSystem : Type 1 where
  pub State : Type 0
  pub kind_of : State → Bytes → Option Kind
  pub size_of : State → Bytes → ℕ
  pub entries : State → Bytes → Option (List Bytes)
  pub mkdir : State → Bytes → State × Bool
  pub create : State → Bytes → State × Option ℕ

module _ (os : FileSystem) where
  open os use {State, kind_of}

  unfoldable pub is_file_exist : State → Bytes → Bool
  is_file_exist s path = elim (kind_of s path) [
    | none ↦ false
    | some directory ↦ false
    | some regular ↦ true
    | some other ↦ true
  ]

  unfoldable pub is_dir_exist : State → Bytes → Bool
  is_dir_exist s path = elim (kind_of s path) [
    | none ↦ false
    | some directory ↦ true
    | some regular ↦ false
    | some other ↦ false
  ]
