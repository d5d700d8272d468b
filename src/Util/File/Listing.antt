-- ===== src/Util/File/Listing.antt =====
-- `ListDir`, `ListFiles`, `RecursiveListAllFiles`, `ListAllFiles` and `FileSize` of
-- cpp_lib/util/file/file.cc.
pub mod Files
pub mod Ends
pub mod Complete
use mathlib.Core.List.{append-nil, append_assoc}
use cpp_lib.Prelude.{
  ℕ, zero, suc, ◌+◌, ◌≡◌, refl, ap, ◌∙◌, sym, Bool, true, false, ◌&&◌, Bool-cases, Option, none,
  some, inl, inr, List, [], ◌∷◌, ◌++◌, ◌==◌, if◌then◌else◌,
}
use cpp_lib.Util.File.{Bytes, FileSystem, Kind, directory, regular, other}
use cpp_lib.Util.File.Make.{slash}

-- `strcmp` of a name with "." and "..".
abbrev pub is_dots : Bytes → Bool
is_dots [] = false
is_dots (a ∷ []) = a == 46
is_dots (a ∷ b ∷ []) = (a == 46) && (b == 46)
is_dots (a ∷ b ∷ c ∷ cs) = false

-- `path`, "/" and the name.
abbrev pub join : Bytes → Bytes → Bytes
join path name = path ++ (slash ∷ name)

abbrev pub is_directory : Option Kind → Bool
is_directory (some directory) = true
is_directory (some regular) = false
is_directory (some other) = false
is_directory none = false

abbrev pub is_regular : Option Kind → Bool
is_regular (some directory) = false
is_regular (some regular) = true
is_regular (some other) = false
is_regular none = false

module _ (os : FileSystem) where
  open os use {State, kind_of, size_of, entries}

  -- The loop of `ListDir`: the second `stat` is of `path` again.
  unfoldable pub scan_dirs : State → Bytes → List Bytes → List Bytes → List Bytes
  scan_dirs s path [] dirs = dirs
  scan_dirs s path (name ∷ names) dirs = scan_dirs s path names (
      if is_dots name
      then dirs
      else if is_directory (kind_of s path)
      then dirs ++ (join path name ∷ [])
      else dirs)

  unfoldable pub list_dir : State → Bytes → List Bytes → Bool × List Bytes
  list_dir s path dirs =
      if is_directory (kind_of s path)
      then elim (entries s path) [
        | none ↦ (false, dirs)
        | some names ↦ (true, scan_dirs s path names dirs)
      ]
      else (false, dirs)

  -- The loop of `ListFiles`.
  unfoldable pub scan_files : State → Bytes → List Bytes → List Bytes → List Bytes
  scan_files s path [] files = files
  scan_files s path (name ∷ names) files = scan_files s path names (
      if is_dots name
      then files
      else if is_regular (kind_of s path)
      then files ++ (join path name ∷ [])
      else files)

  unfoldable pub list_files : State → Bytes → List Bytes → Bool × List Bytes
  list_files s path files =
      if is_directory (kind_of s path)
      then elim (entries s path) [
        | none ↦ (false, files)
        | some names ↦ (true, scan_files s path names files)
      ]
      else (false, files)

  -- The loop of `RecursiveListAllFiles`; `walk` is the recursive call.
  unfoldable pub scan_all :
      (Bytes → Bytes → List Bytes → Option (Bool × List Bytes))
      → State
      → Bytes
      → Bytes
      → List Bytes
      → List Bytes
      → Option (List Bytes)
  scan_all walk s path base [] fs = some fs
  scan_all walk s path base (name ∷ names) fs =
      let later = scan_all walk s path base names in
      if is_dots name
      then later fs
      else if is_regular (kind_of s (join path name))
      then later (fs ++ ((base ++ name) ∷ []))
      else if is_directory (kind_of s (join path name))
      then elim (walk (join path name) ((base ++ name) ++ (slash ∷ [])) fs) [
        | none ↦ none
        | some (result, fs') ↦ later fs'
      ]
      else later fs

  -- `none` if the fuel, which bounds the depth, runs out.
  unfoldable pub recursive_list_all_files :
      ℕ → State → Bytes → Bytes → List Bytes → Option (Bool × List Bytes)
  recursive_list_all_files zero s path base fs = none
  recursive_list_all_files (suc n) s path base fs =
      if is_directory (kind_of s path)
      then elim (entries s path) [
        | none ↦ some (false, fs)
        | some names ↦ elim (scan_all (recursive_list_all_files n s) s path base names fs) [
          | none ↦ none
          | some fs' ↦ some (true, fs')
        ]
      ]
      else some (false, fs)

  -- `files` is a copy of the caller's vector: the result, and what the caller's vector is
  -- afterwards.
  unfoldable pub list_all_files : ℕ → State → Bytes → List Bytes → Option (Bool × List Bytes)
  list_all_files n s path files = elim (recursive_list_all_files n s path [] files) [
    | none ↦ none
    | some (result, copy) ↦ some (result, files)
  ]

  -- The loop of `FileSize`; `size` is the recursive call.
  unfoldable pub total_file_size : (Bytes → Option ℕ) → Bytes → List Bytes → ℕ → Option ℕ
  total_file_size size path [] filesize = some filesize
  total_file_size size path (name ∷ names) filesize =
      let later = total_file_size size path names in
      if is_dots name
      then later filesize
      else elim (size (join path name)) [ none ↦ none | some n ↦ later (filesize + n) ]

  unfoldable pub file_size : ℕ → State → Bytes → Option ℕ
  file_size zero s path = none
  file_size (suc n) s path = elim (kind_of s path) [
    | none ↦ some 0
    | some regular ↦ some (size_of s path)
    | some directory ↦ elim (entries s path) [
      | none ↦ some 0
      | some names ↦ total_file_size (file_size n s) path names 0
    ]
    | some other ↦ some 0
  ]

  -- The entries of a directory but for "." and "..".
  abbrev pub visible : Bytes → List Bytes → List Bytes
  visible path [] = []
  visible path (name ∷ names) =
      let rest = visible path names in if is_dots name then rest else join path name ∷ rest

  scan_dirs-visible :
      (s : State) (path : Bytes) (names dirs : List Bytes)
      → is_directory (kind_of s path) ≡ true
      → scan_dirs s path names dirs ≡ dirs ++ visible path names
  unfolding scan_dirs
  scan_dirs-visible s path [] dirs h = sym (append-nil dirs)
  scan_dirs-visible s path (name ∷ names) dirs h = elim (Bool-cases (is_dots name)) [
    | inl dots ↦ rw (dots, scan_dirs) (scan_dirs-visible s path names dirs h)
    | inr plain ↦
        rw (plain, h, scan_dirs)
          (scan_dirs-visible s path names (dirs ++ (join path name ∷ [])) h
            ∙ append_assoc dirs (join path name ∷ []) (visible path names))
  ]

  scan_files-none :
      (s : State) (path : Bytes) (names files : List Bytes)
      → is_regular (kind_of s path) ≡ false
      → scan_files s path names files ≡ files
  unfolding scan_files
  scan_files-none s path [] files h = refl
  scan_files-none s path (name ∷ names) files h = elim (Bool-cases (is_dots name)) [
    | inl dots ↦ rw (dots, scan_files) (scan_files-none s path names files h)
    | inr plain ↦ rw (plain, h, scan_files) (scan_files-none s path names files h)
  ]

  -- Of a directory, `ListDir` appends every entry but "." and "..", files too, and `ListFiles`
  -- appends none; both return true.
  pub list_dir-visible :
      (s : State) (path : Bytes) (names dirs files : List Bytes)
      → kind_of s path ≡ some directory
      → entries s path ≡ some names
      → (list_dir s path dirs ≡ (true, dirs ++ visible path names))
        × (list_files s path files ≡ (true, files))
  unfolding list_dir list_files
  list_dir-visible s path names dirs files h e =
      let dir : is_directory (kind_of s path) ≡ true = ap is_directory h in
      let not_file : is_regular (kind_of s path) ≡ false = ap is_regular h in
      (
        rw (list_dir, dir, e) (ap (λ l. (true, l)) (scan_dirs-visible s path names dirs dir)),
        rw (list_files, dir, e) (ap (λ l. (true, l)) (scan_files-none s path names files not_file)),
      )
