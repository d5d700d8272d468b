-- ===== src/Util/File/Listing/Files.antt =====
-- What `RecursiveListAllFiles` of cpp_lib/util/file/file.cc lists.
use mathlib.Core.Path.{subst}
use mathlib.Core.List.{append_assoc}
use cpp_lib.Prelude.{
  ℕ, zero, suc, ◌≡◌, refl, sym, ◌∙◌, Bool, true, false, Bool-cases, Option, some, Option-cases, inl,
  inr, List, [], ◌∷◌, ◌++◌, All, get_elem?, arith,
}
use cpp_lib.Util.File.{Bytes, FileSystem}
use cpp_lib.Util.File.Make.{slash}
use cpp_lib.Util.File.Listing.{
  is_dots, join, is_directory, is_regular, scan_all, recursive_list_all_files,
}

pub joined :
    (base name rel : Bytes)
    → base ++ (name ++ (slash ∷ rel)) ≡ ((base ++ name) ++ (slash ∷ [])) ++ rel
joined base name rel =
    sym (append_assoc base name (slash ∷ rel)) ∙ sym (append_assoc (base ++ name) (slash ∷ []) rel)

module _ (os : FileSystem) (s : os.State) where
  open os use {kind_of, entries}

  -- The regular files below a directory, by their paths from it.
  pub data Under : Bytes → Bytes → Type 0 where
    file :
        {path name : Bytes} {names : List Bytes} (i : ℕ)
        → entries s path ≡ some names
        → get_elem? names i ≡ some name
        → is_dots name ≡ false
        → is_regular (kind_of s (join path name)) ≡ true
        → Under path name
    below :
        {path name rel : Bytes} {names : List Bytes} (i : ℕ)
        → entries s path ≡ some names
        → get_elem? names i ≡ some name
        → is_dots name ≡ false
        → is_directory (kind_of s (join path name)) ≡ true
        → Under (join path name) rel
        → Under path (name ++ (slash ∷ rel))

  All-entries :
      (P : Bytes → Type 0) (names : List Bytes)
      → ((i : ℕ) (name : Bytes) → get_elem? names i ≡ some name → P name)
      → All P names
  All-entries P [] h = tt
  All-entries P (name ∷ names) h = (h 0 name refl, All-entries P names (λ i n e. h (suc i) n e))

  All-append :
      (P : Bytes → Type 0) (fs : List Bytes) (f : Bytes) → All P fs → P f → All P (fs ++ (f ∷ []))
  All-append P [] f h p = (p, tt)
  All-append P (g ∷ fs) f h p = (h.0, All-append P fs f h.1 p)

  module _ (Q : Bytes → Type 0) where
    -- A walk adds only names that have the property.
    Adds : (Bytes → Bytes → List Bytes → Option (Bool × List Bytes)) → Bytes → Bytes → Type 0
    Adds walk path base =
        (fs fs' : List Bytes) (b : Bool)
        → All Q fs
        → ((rel : Bytes) → Under path rel → Q (base ++ rel))
        → walk path base fs ≡ some (b, fs')
        → All Q fs'

    -- What an entry contributes has the property.
    Fine : Bytes → Bytes → Bytes → Type 0
    Fine path base name =
        is_dots name ≡ false
        → (is_regular (kind_of s (join path name)) ≡ true → Q (base ++ name))
          × (is_directory (kind_of s (join path name)) ≡ true
              → (rel : Bytes) → Under (join path name) rel
              → Q (((base ++ name) ++ (slash ∷ [])) ++ rel))

    scan_all-Adds :
        (walk : Bytes → Bytes → List Bytes → Option (Bool × List Bytes)) (path base : Bytes)
        → ((p b : Bytes) → Adds walk p b)
        → (names fs fs' : List Bytes) → All (Fine path base) names
        → All Q fs
        → scan_all os walk s path base names fs ≡ some fs'
        → All Q fs'
    unfolding scan_all Adds Fine
    scan_all-Adds walk path base adds [] fs fs' fine h e = subst (All Q) (ground (arith, e)) h
    scan_all-Adds walk path base adds (name ∷ names) fs fs' fine h e =
        elim (Bool-cases (is_dots name)) [
          | inl dots ↦
              scan_all-Adds walk path base adds names fs fs' fine.1 h (ground (arith, e, dots))
          | inr plain ↦ elim (Bool-cases (is_regular (kind_of s (join path name)))) [
            | inl reg ↦
                scan_all-Adds walk path base adds names (fs ++ ((base ++ name) ∷ [])) fs' fine.1
                  (All-append Q fs (base ++ name) h ((fine.0 plain).0 reg))
                  (ground (arith, e, plain, reg))
            | inr irregular ↦ elim (Bool-cases (is_directory (kind_of s (join path name)))) [
              | inl dir ↦
                  elim (Option-cases (walk (join path name) ((base ++ name) ++ (slash ∷ [])) fs)) [
                    | inl stopped ↦ absurd (ground (arith, e, plain, irregular, dir, stopped))
                    | inr ((b, mid), ran) ↦
                        scan_all-Adds walk path base adds names mid fs' fine.1
                          (adds (join path name) ((base ++ name) ++ (slash ∷ [])) fs mid b h
                            ((fine.0 plain).1 dir) ran)
                          (ground (arith, e, plain, irregular, dir, ran))
                  ]
              | inr special ↦
                  scan_all-Adds walk path base adds names fs fs' fine.1 h
                    (ground (arith, e, plain, irregular, special))
            ]
          ]
        ]

    All-Fine :
        (path base : Bytes) (names : List Bytes)
        → entries s path ≡ some names
        → ((rel : Bytes) → Under path rel → Q (base ++ rel))
        → All (Fine path base) names
    unfolding Fine
    All-Fine path base names e under = All-entries (Fine path base) names (λ i name at plain. (
      (λ reg. under name (file i e at plain reg)),
      (λ dir rel u.
          subst Q (joined base name rel)
            (under (name ++ (slash ∷ rel)) (below i e at plain dir u))),
    ))

    walk-Adds : (n : ℕ) (path base : Bytes) → Adds (recursive_list_all_files os n s) path base
    unfolding Adds recursive_list_all_files
    walk-Adds zero path base fs fs' b h under e = absurd (ground (arith, e))
    walk-Adds (suc n) path base fs fs' b h under e =
        elim (Bool-cases (is_directory (kind_of s path))) [
          | inr other ↦ subst (All Q) (ground (arith, e, other)) h
          | inl dir ↦ elim (Option-cases (entries s path)) [
            | inl unread ↦ subst (All Q) (ground (arith, e, dir, unread)) h
            | inr (names, read) ↦
                let walk = recursive_list_all_files os n s in
                elim (Option-cases (scan_all os walk s path base names fs)) [
                  | inl stopped ↦ absurd (ground (arith, e, dir, read, stopped))
                  | inr (found, ran) ↦
                      let all =
                        scan_all-Adds walk path base (walk-Adds n) names fs found
                          (All-Fine path base names read under) h ran in
                      subst (All Q) (ground (arith, e, dir, read, ran)) all
                ]
          ]
        ]

  -- Where a walk of `RecursiveListAllFiles` from the empty base into an empty vector ends within
  -- its fuel, everything it lists is the path, from the directory on, of a regular file below it,
  -- through entries other than "." and "..".
  pub recursive_list_all_files-Under :
      (n : ℕ) (path : Bytes) (fs : List Bytes) (b : Bool)
      → recursive_list_all_files os n s path [] [] ≡ some (b, fs)
      → All (Under path) fs
  unfolding Adds
  recursive_list_all_files-Under n path fs b e =
      walk-Adds (Under path) n path [] [] fs b tt (λ rel u. u) e
