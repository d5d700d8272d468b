-- ===== src/Util/File/Listing/Complete.antt =====
-- That `RecursiveListAllFiles` of cpp_lib/util/file/file.cc leaves out no file.
use mathlib.Core.Path.{subst}
use cpp_lib.Prelude.{
  ℕ, zero, suc, ◌≡◌, refl, sym, ap, ◌∙◌, Bool, true, false, Bool-cases, Option, some, Option-cases,
  inl, inr, List, [], ◌∷◌, ◌++◌, All, get_elem?, arith,
}
use cpp_lib.Util.File.{Bytes, FileSystem, Kind, regular, directory, other}
use cpp_lib.Util.File.Make.{slash}
use cpp_lib.Util.File.Listing.{
  is_dots, join, is_directory, is_regular, scan_all, recursive_list_all_files,
}
use cpp_lib.Util.File.Listing.Files.{Under, file, below, joined, recursive_list_all_files-Under}
use cpp_lib.Util.File.Listing.Ends.{is_listable, listable-directory, Shallow, walk-ends}

abbrev pub In : Bytes → List Bytes → Type 0
In f fs = (j : ℕ) × (get_elem? fs j ≡ some f)

kept : (f g : Bytes) (fs : List Bytes) → In f fs → In f (fs ++ (g ∷ []))
kept f g [] (j, e) = absurd (ground (arith, e))
kept f g (h ∷ fs) (zero, e) = (0, e)
kept f g (h ∷ fs) (suc j, e) = let (k, d) = kept f g fs (j, e) in (suc k, d)

added : (g : Bytes) (fs : List Bytes) → In g (fs ++ (g ∷ []))
added g [] = (0, refl)
added g (h ∷ fs) = let (k, d) = added g fs in (suc k, d)

irregular : (k : Kind) → is_directory (some k) ≡ true → is_regular (some k) ≡ false
irregular regular h = absurd (ground arith)
irregular directory h = refl
irregular other h = absurd (ground arith)

module _ (os : FileSystem) (s : os.State) where
  open os use {kind_of, entries}

  Grows : (Bytes → Bytes → List Bytes → Option (Bool × List Bytes)) → Type 0
  Grows walk =
      (path base : Bytes) (fs fs' : List Bytes) (b : Bool) (f : Bytes)
      → walk path base fs ≡ some (b, fs')
      → In f fs
      → In f fs'

  module _ (walk : Bytes → Bytes → List Bytes → Option (Bool × List Bytes)) (grows : Grows walk)
      (path base : Bytes) where
    -- The scan goes on behind the first entry, with all that was listed before it.
    scan_all-tail :
        (name : Bytes) (names fs fs' : List Bytes)
        → scan_all os walk s path base (name ∷ names) fs ≡ some fs'
        → (mid : List Bytes) × (scan_all os walk s path base names mid ≡ some fs')
          × ((f : Bytes) → In f fs → In f mid)
    unfolding scan_all Grows
    scan_all-tail name names fs fs' e = elim (Bool-cases (is_dots name)) [
      | inl dots ↦ (fs, ground (arith, e, dots), λ f m. m)
      | inr plain ↦ elim (Bool-cases (is_regular (kind_of s (join path name)))) [
        | inl reg ↦ (
          fs ++ ((base ++ name) ∷ []),
          ground (arith, e, plain, reg),
          λ f m. kept f (base ++ name) fs m,
        )
        | inr irregular ↦ elim (Bool-cases (is_directory (kind_of s (join path name)))) [
          | inr special ↦ (fs, ground (arith, e, plain, irregular, special), λ f m. m)
          | inl dir ↦
              elim (Option-cases (walk (join path name) ((base ++ name) ++ (slash ∷ [])) fs)) [
                | inl stopped ↦ absurd (ground (arith, e, plain, irregular, dir, stopped))
                | inr ((b, mid), ran) ↦ (
                  mid,
                  ground (arith, e, plain, irregular, dir, ran),
                  λ f m. grows (join path name) ((base ++ name) ++ (slash ∷ [])) fs mid b f ran m,
                )
              ]
        ]
      ]
    ]

    scan_all-grows :
        (names fs fs' : List Bytes) (f : Bytes)
        → scan_all os walk s path base names fs ≡ some fs'
        → In f fs
        → In f fs'
    unfolding scan_all
    scan_all-grows [] fs fs' f e m = subst (In f) (ground (arith, e)) m
    scan_all-grows (name ∷ names) fs fs' f e m =
        let (mid, rest, keep) = scan_all-tail name names fs fs' e in
        scan_all-grows names mid fs' f rest (keep f m)

    -- What the scan lists at an entry it lists in all.
    scan_all-at :
        (f name : Bytes)
        → ((names fs fs' : List Bytes)
            → scan_all os walk s path base (name ∷ names) fs ≡ some fs'
            → In f fs')
        → (names : List Bytes) (i : ℕ) (fs fs' : List Bytes) → get_elem? names i ≡ some name
        → scan_all os walk s path base names fs ≡ some fs'
        → In f fs'
    scan_all-at f name here [] i fs fs' at e = absurd (ground (arith, at))
    scan_all-at f name here (n ∷ names) zero fs fs' at e =
        here names fs fs' (
          subst (λ x. scan_all os walk s path base (x ∷ names) fs ≡ some fs') (ground (arith, at))
            e)
    scan_all-at f name here (n ∷ names) (suc i) fs fs' at e =
        let (mid, rest, keep) = scan_all-tail n names fs fs' e in
        scan_all-at f name here names i mid fs' at rest

    -- A regular file.
    scan_all-file :
        (name : Bytes)
        → is_dots name ≡ false
        → is_regular (kind_of s (join path name)) ≡ true
        → (names fs fs' : List Bytes) → scan_all os walk s path base (name ∷ names) fs ≡ some fs'
        → In (base ++ name) fs'
    unfolding scan_all
    scan_all-file name plain reg names fs fs' e =
        scan_all-grows names (fs ++ ((base ++ name) ∷ [])) fs' (base ++ name)
          (ground (arith, e, plain, reg)) (added (base ++ name) fs)

    directory_irregular :
        (name : Bytes)
        → is_directory (kind_of s (join path name)) ≡ true
        → is_regular (kind_of s (join path name)) ≡ false
    directory_irregular name dir = elim (Option-cases (kind_of s (join path name))) [
      | inl e ↦ absurd (ground (arith, ap is_directory (sym e) ∙ dir))
      | inr (k, e) ↦ ap is_regular e ∙ irregular k (ap is_directory (sym e) ∙ dir)
    ]

    -- What the walk of a directory finds.
    scan_all-directory :
        (f name : Bytes)
        → is_dots name ≡ false
        → is_directory (kind_of s (join path name)) ≡ true
        → ((fs mid : List Bytes) (b : Bool)
            → walk (join path name) ((base ++ name) ++ (slash ∷ [])) fs ≡ some (b, mid)
            → In f mid)
        → (names fs fs' : List Bytes) → scan_all os walk s path base (name ∷ names) fs ≡ some fs'
        → In f fs'
    unfolding scan_all
    scan_all-directory f name plain dir finds names fs fs' e =
        let not_file = directory_irregular name dir in
        elim (Option-cases (walk (join path name) ((base ++ name) ++ (slash ∷ [])) fs)) [
          | inl stopped ↦ absurd (ground (arith, e, plain, not_file, dir, stopped))
          | inr ((b, mid), ran) ↦
              scan_all-grows names mid fs' f (ground (arith, e, plain, not_file, dir, ran))
                (finds fs mid b ran)
        ]

  opened :
      (n : ℕ) (path base : Bytes) (fs fs' names : List Bytes) (b : Bool)
      → is_directory (kind_of s path) ≡ true
      → entries s path ≡ some names
      → recursive_list_all_files os (suc n) s path base fs ≡ some (b, fs')
      → scan_all os (recursive_list_all_files os n s) s path base names fs ≡ some fs'
  unfolding recursive_list_all_files
  opened n path base fs fs' names b dir read e =
      elim (Option-cases (scan_all os (recursive_list_all_files os n s) s path base names fs)) [
        | inl stopped ↦ absurd (ground (arith, e, dir, read, stopped))
        | inr (found, ran) ↦ ran ∙ ground (arith, e, dir, read, ran)
      ]

  walk-Grows : (n : ℕ) → Grows (recursive_list_all_files os n s)
  unfolding Grows recursive_list_all_files
  walk-Grows zero path base fs fs' b f e m = absurd (ground (arith, e))
  walk-Grows (suc n) path base fs fs' b f e m = elim (Bool-cases (is_directory (kind_of s path))) [
    | inr no_dir ↦ subst (In f) (ground (arith, e, no_dir)) m
    | inl dir ↦ elim (Option-cases (entries s path)) [
      | inl unread ↦ subst (In f) (ground (arith, e, dir, unread)) m
      | inr (names, read) ↦
          scan_all-grows (recursive_list_all_files os n s) (walk-Grows n) path base names fs fs' f
            (opened n path base fs fs' names b dir read e) m
    ]
  ]

  walk-finds :
      (n : ℕ) (path base rel : Bytes) (fs fs' : List Bytes) (b : Bool)
      → Under os s path rel
      → is_directory (kind_of s path) ≡ true
      → recursive_list_all_files os n s path base fs ≡ some (b, fs')
      → In (base ++ rel) fs'
  unfolding recursive_list_all_files
  walk-finds zero path base rel fs fs' b u dir e = absurd (ground (arith, e))
  walk-finds (suc n) path base rel fs fs' b (file i read at plain reg) dir e =
      let walk = recursive_list_all_files os n s in
      scan_all-at walk (walk-Grows n) path base (base ++ rel) rel
        (scan_all-file walk (walk-Grows n) path base rel plain reg) _ i fs fs' at
        (opened n path base fs fs' _ b dir read e)
  walk-finds (suc n) path base _ fs fs' b (below {name = name} {rel = rel} i read at plain sub u)
        dir e =
      let walk = recursive_list_all_files os n s in
      let inner = (base ++ name) ++ (slash ∷ []) in
      let found : In (inner ++ rel) fs' =
        scan_all-at walk (walk-Grows n) path base (inner ++ rel) name
          (scan_all-directory walk (walk-Grows n) path base (inner ++ rel) name plain sub
            (λ gs mid c ran. walk-finds n (join path name) inner rel gs mid c u sub ran))
          _ i fs fs' at (opened n path base fs fs' _ b dir read e) in
      subst (λ f. In f fs') (sym (joined base name rel)) found

  -- If directories are nested at most `n` deep below the path, `RecursiveListAllFiles` from the
  -- empty base into an empty vector, with fuel for one more, ends, and returns true exactly if
  -- the path is a directory that can be read. Then everything it lists is the path, from the
  -- directory on, of a regular file that lies below it through readable directories and entries
  -- other than "." and "..", and each such file is listed.
  pub recursive_list_all_files-In :
      (n : ℕ) (path : Bytes)
      → Shallow os s n path
      → (fs : List Bytes) × (recursive_list_all_files os (suc n) s path [] []
          ≡ some (is_listable (kind_of s path) (entries s path), fs))
        × (is_listable (kind_of s path) (entries s path) ≡ true
            → All (Under os s path) fs × ((rel : Bytes) → Under os s path rel → In rel fs))
  recursive_list_all_files-In n path h =
      let (fs, ran) = walk-ends os s n path [] [] h in
      (
        fs,
        ran,
        λ good. (
          recursive_list_all_files-Under os s (suc n) path fs _ ran,
          λ rel u.
              walk-finds (suc n) path [] rel [] fs _ u
                (listable-directory (kind_of s path) (entries s path) good) ran,
        ),
      )
