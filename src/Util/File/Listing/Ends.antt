-- ===== src/Util/File/Listing/Ends.antt =====
-- That `RecursiveListAllFiles` of cpp_lib/util/file/file.cc ends where directories are nested to a
-- bounded depth.
use cpp_lib.Prelude.{
  ℕ, zero, suc, ◌≡◌, refl, sym, ap, ◌∙◌, Bool, true, false, Bool-cases, Option, none, some,
  Option-cases, inl, inr, List, [], ◌∷◌, ◌++◌, get_elem?, arith,
}
use cpp_lib.Util.File.{Bytes, FileSystem, Kind}
use cpp_lib.Util.File.Make.{slash}
use cpp_lib.Util.File.Listing.{
  is_dots, join, is_directory, is_regular, scan_all, recursive_list_all_files,
}

-- A directory of which `opendir` gives the entries.
abbrev pub is_listable : Option Kind → Option (List Bytes) → Bool
is_listable kind none = false
is_listable kind (some names) = is_directory kind

not_listable :
    (k : Option Kind) (e : Option (List Bytes)) → is_directory k ≡ false → is_listable k e ≡ false
not_listable k none h = refl
not_listable k (some names) h = h

pub listable-directory :
    (k : Option Kind) (e : Option (List Bytes)) → is_listable k e ≡ true → is_directory k ≡ true
listable-directory k none h = absurd (ground (arith, h))
listable-directory k (some names) h = h

module _ (os : FileSystem) (s : os.State) where
  open os use {kind_of, entries}

  -- Below a path, directories are nested at most so deep.
  unfoldable pub Shallow : ℕ → Bytes → Type 0
  Shallow zero path = is_directory (kind_of s path) ≡ false
  Shallow (suc n) path =
      (names : List Bytes) (i : ℕ) (name : Bytes)
      → entries s path ≡ some names
      → get_elem? names i ≡ some name
      → is_dots name ≡ false
      → is_directory (kind_of s (join path name)) ≡ true
      → Shallow n (join path name)

  -- The scan ends if the walks of the directories do.
  scan_all-ends :
      (walk : Bytes → Bytes → List Bytes → Option (Bool × List Bytes)) (path base : Bytes)
      (names fs : List Bytes)
      → ((i : ℕ) (name inner : Bytes) (gs : List Bytes)
          → get_elem? names i ≡ some name
          → is_dots name ≡ false
          → is_directory (kind_of s (join path name)) ≡ true
          → (r : Bool × List Bytes) × (walk (join path name) inner gs ≡ some r))
      → (fs' : List Bytes) × (scan_all os walk s path base names fs ≡ some fs')
  unfolding scan_all
  scan_all-ends walk path base [] fs ends = (fs, refl)
  scan_all-ends walk path base (name ∷ names) fs ends =
      let later = λ (i : ℕ). ends (suc i) in
      elim (Bool-cases (is_dots name)) [
        | inl dots ↦ rw (scan_all, dots) (scan_all-ends walk path base names fs later)
        | inr plain ↦ elim (Bool-cases (is_regular (kind_of s (join path name)))) [
          | inl reg ↦
              rw (scan_all, plain, reg)
                (scan_all-ends walk path base names (fs ++ ((base ++ name) ∷ [])) later)
          | inr irreg ↦ elim (Bool-cases (is_directory (kind_of s (join path name)))) [
            | inr special ↦
                rw (scan_all, plain, irreg, special) (scan_all-ends walk path base names fs later)
            | inl dir ↦
                let ((b, mid), ran) =
                  ends 0 name ((base ++ name) ++ (slash ∷ [])) fs refl plain dir in
                rw (scan_all, plain, irreg, dir, ran) (scan_all-ends walk path base names mid later)
          ]
        ]
      ]

  walk-no_directory :
      (n : ℕ) (path base : Bytes) (fs : List Bytes)
      → is_directory (kind_of s path) ≡ false
      → recursive_list_all_files os (suc n) s path base fs
        ≡ some (is_listable (kind_of s path) (entries s path), fs)
  unfolding recursive_list_all_files
  walk-no_directory n path base fs h =
      rw (recursive_list_all_files, h) refl
      ∙ ap (λ b. some (b, fs)) (sym (not_listable (kind_of s path) (entries s path) h))

  walk-unread :
      (n : ℕ) (path base : Bytes) (fs : List Bytes)
      → is_directory (kind_of s path) ≡ true
      → entries s path ≡ none
      → recursive_list_all_files os (suc n) s path base fs
        ≡ some (is_listable (kind_of s path) (entries s path), fs)
  unfolding recursive_list_all_files
  walk-unread n path base fs h e = rw (recursive_list_all_files, h, e) refl

  walk-read :
      (n : ℕ) (path base : Bytes) (fs fs' names : List Bytes)
      → is_directory (kind_of s path) ≡ true
      → entries s path ≡ some names
      → scan_all os (recursive_list_all_files os n s) s path base names fs ≡ some fs'
      → recursive_list_all_files os (suc n) s path base fs
        ≡ some (is_listable (kind_of s path) (entries s path), fs')
  unfolding recursive_list_all_files
  walk-read n path base fs fs' names h e ran =
      rw (recursive_list_all_files, h, e, ran) (ap (λ b. some (b, fs')) (sym h))

  -- Fuel for one more than the depth is enough.
  pub walk-ends :
      (n : ℕ) (path base : Bytes) (fs : List Bytes)
      → Shallow n path
      → (fs' : List Bytes) × (recursive_list_all_files os (suc n) s path base fs
          ≡ some (is_listable (kind_of s path) (entries s path), fs'))
  unfolding Shallow
  walk-ends zero path base fs h = (fs, walk-no_directory zero path base fs h)
  walk-ends (suc n) path base fs h = elim (Bool-cases (is_directory (kind_of s path))) [
    | inr no_dir ↦ (fs, walk-no_directory (suc n) path base fs no_dir)
    | inl dir ↦ elim (Option-cases (entries s path)) [
      | inl unread ↦ (fs, walk-unread (suc n) path base fs dir unread)
      | inr (names, read) ↦
          let walk = recursive_list_all_files os (suc n) s in
          let (fs', ran) = scan_all-ends walk path base names fs (λ i name inner gs at plain sub.
            let (gs', e) =
              walk-ends n (join path name) inner gs (h names i name read at plain sub) in
            (_, e)) in
          (fs', walk-read (suc n) path base fs fs' names dir read ran)
    ]
  ]
