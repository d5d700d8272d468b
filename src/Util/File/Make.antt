-- ===== src/Util/File/Make.antt =====
-- `MakeDir` and `MakeFile` of cpp_lib/util/file/file.cc.
use cpp_lib.Prelude.{
  ℕ, zero, suc, ◌+◌, ◌≤◌, ◌<◌, ◌≡◌, refl, ap, ◌∙◌, ◌≢◌, Bool, true, false, ◌||◌, Bool-cases, Option,
  none, some, Option-cases, inl, inr, [], ◌∷◌, ◌++◌, length, length-append, take, take-append, ◌==◌,
  if◌then◌else◌, arith,
}
use cpp_lib.Util.File.{Bytes, FileSystem, directory, is_file_exist, is_dir_exist}

abbrev pub slash : ℕ
slash = 47

-- `rfind("/")`, `none` for `npos`.
unfoldable pub rfind : Bytes → Option ℕ
rfind [] = none
rfind (c ∷ cs) = elim (rfind cs) [
  | none ↦ if c == slash then some 0 else none
  | some i ↦ some (suc i)
]

-- `path_temp`: the path without a slash at its end. At the empty path both sides of the code's
-- test are `npos`, and nothing is cut off.
unfoldable pub path_temp : Bytes → Bytes
path_temp path = elim (rfind path) [
  | none ↦ path
  | some found ↦ if found + 1 == length path then take found path else path
]

rfind-lt : (cs : Bytes) (i : ℕ) → rfind cs ≡ some i → i < length cs
unfolding rfind
rfind-lt [] i h = absurd (ground arith)
rfind-lt (c ∷ cs) i h = elim (Option-cases (rfind cs)) [
  | inl e ↦ ground arith
  | inr (j, e) ↦ ground (arith, rfind-lt cs j e)
]

length-take : (n : ℕ) (cs : Bytes) → (length (take n cs) ≤ n) × (length (take n cs) ≤ length cs)
length-take zero cs = omega arith
length-take (suc n) [] = omega arith
length-take (suc n) (c ∷ cs) = omega (arith, length-take n cs)

length-path_temp : (path : Bytes) → length (path_temp path) ≤ length path
unfolding path_temp
length-path_temp path = elim (Option-cases (rfind path)) [
  | inl e ↦ rw (path_temp, e) (omega arith)
  | inr (i, e) ↦ ground (arith, length-take i path)
]

pub rfind-append :
    (base name : Bytes) → rfind name ≡ none → rfind (base ++ (slash ∷ name)) ≡ some (length base)
unfolding rfind
rfind-append [] name h = rw (rfind, h) refl
rfind-append (c ∷ cs) name h = rw (rfind, rfind-append cs name h) refl

-- A path whose last component is not empty is kept.
path_temp-append :
    (base name : Bytes)
    → rfind name ≡ none
    → name ≢ []
    → path_temp (base ++ (slash ∷ name)) ≡ base ++ (slash ∷ name)
unfolding path_temp
path_temp-append base [] h ne = absurd (ne refl)
path_temp-append base (c ∷ cs) h ne =
    let longer : (length base + 1 == length (base ++ (slash ∷ c ∷ cs))) ≡ false =
      ground (arith, length-append base (slash ∷ c ∷ cs)) in
    rw (path_temp, rfind-append base (c ∷ cs) h, longer) refl

module _ (os : FileSystem) where
  open os use {State, kind_of, mkdir, create}

  -- `none` if the fuel runs out.
  unfoldable pub make_dir : ℕ → State → Bytes → Option (State × Bool)
  make_dir zero s path = none
  make_dir (suc n) s path =
      if is_dir_exist os s path || is_file_exist os s path
      then some (s, false)
      else elim (rfind (path_temp path)) [
        | none ↦ some (mkdir s path)
        | some found ↦ elim (make_dir n s (take found (path_temp path))) [
          | none ↦ none
          | some (s', true) ↦ some (mkdir s' path)
          | some (s', false) ↦ some (s', false)
        ]
      ]

  -- The conversion of the result of `open` to `bool`.
  abbrev pub to_bool : Option ℕ → Bool
  to_bool none = true
  to_bool (some zero) = false
  to_bool (some (suc fd)) = true

  abbrev pub created : State × Option ℕ → State × Bool
  created (s, fd) = (s, to_bool fd)

  unfoldable pub make_file : State → Bytes → Option (State × Bool)
  make_file s path =
      if is_dir_exist os s path || is_file_exist os s path
      then some (s, false)
      else elim (rfind path) [
        | none ↦ some (s, false)
        | some found ↦ elim (make_dir (found + 1) s (take found path)) [
          | none ↦ none
          | some (s', true) ↦ some (created (create s' path))
          | some (s', false) ↦ some (created (create s' path))
        ]
      ]

  pub make_dir_returns :
      (n : ℕ) (s : State) (path : Bytes)
      → length path < n
      → (r : State × Bool) × (make_dir n s path ≡ some r)
  unfolding make_dir
  make_dir_returns zero s path h = absurd (omega arith)
  make_dir_returns (suc n) s path h =
      elim (Bool-cases (is_dir_exist os s path || is_file_exist os s path)) [
        | inl there ↦ ((s, false), rw (make_dir, there) refl)
        | inr absent ↦ elim (Option-cases (rfind (path_temp path))) [
          | inl e ↦ (mkdir s path, rw (make_dir, absent, e) refl)
          | inr (i, e) ↦
              let base = take i (path_temp path) in
              let shorter : length base < n = omega (
                arith,
                rfind-lt (path_temp path) i e,
                length-take i (path_temp path),
                length-path_temp path,
              ) in
              let ((s', made), ran) = make_dir_returns n s base shorter in
              elim (Bool-cases made) [
                | inl y ↦ (mkdir s' path, rw (make_dir, absent, e, ran, y) refl)
                | inr m ↦ ((s', false), rw (make_dir, absent, e, ran, m) refl)
              ]
        ]
      ]

  is_dir-directory :
      (s : State) (path : Bytes) → kind_of s path ≡ some directory → is_dir_exist os s path ≡ true
  unfolding is_dir_exist
  is_dir-directory s path h = rw (is_dir_exist, h) refl

  absent-test :
      (s : State) (path : Bytes)
      → kind_of s path ≡ none
      → (is_dir_exist os s path || is_file_exist os s path) ≡ false
  unfolding is_dir_exist is_file_exist
  absent-test s path h = rw (is_dir_exist, is_file_exist, h) refl

  -- Where the parent is not made, the directory is not made.
  stopped :
      (n i : ℕ) (s s' : State) (path base : Bytes)
      → (is_dir_exist os s path || is_file_exist os s path) ≡ false
      → rfind (path_temp path) ≡ some i
      → take i (path_temp path) ≡ base
      → make_dir n s base ≡ some (s', false)
      → make_dir (suc n) s path ≡ some (s', false)
  unfolding make_dir
  stopped n i s s' path base absent e t ran = rw (make_dir, absent, e, t, ran) refl

  existing :
      (n : ℕ) (s : State) (path : Bytes)
      → kind_of s path ≡ some directory
      → make_dir (suc n) s path ≡ some (s, false)
  unfolding make_dir
  existing n s path old = rw (make_dir, is_dir-directory s path old) refl

  -- `MakeDir` of a path that does not exist, in a directory that does, returns false and makes
  -- nothing.
  make_dir_in_existing :
      (n : ℕ) (s : State) (base name : Bytes)
      → rfind name ≡ none
      → name ≢ []
      → kind_of s (base ++ (slash ∷ name)) ≡ none
      → kind_of s base ≡ some directory
      → make_dir (suc (suc n)) s (base ++ (slash ∷ name)) ≡ some (s, false)
  make_dir_in_existing n s base name h ne new old =
      let path = base ++ (slash ∷ name) in
      let same = path_temp-append base name h ne in
      stopped (suc n) (length base) s s path base (absent-test s path new)
        (ap rfind same ∙ rfind-append base name h)
        (ap (take (length base)) same ∙ take-append base (slash ∷ name)) (existing n s base old)

  after_base :
      (i : ℕ) (s s' : State) (path base : Bytes) (made : Bool)
      → (is_dir_exist os s path || is_file_exist os s path) ≡ false
      → rfind path ≡ some i
      → take i path ≡ base
      → make_dir (i + 1) s base ≡ some (s', made)
      → make_file s path ≡ some (created (create s' path))
  unfolding make_file
  after_base i s s' path base true absent e t ran = rw (make_file, absent, e, t, ran) refl
  after_base i s s' path base false absent e t ran = rw (make_file, absent, e, t, ran) refl

  -- `MakeFile` of a path that does not exist and that `open` cannot create returns true.
  pub make_file_failed :
      (s : State) (base name : Bytes)
      → rfind name ≡ none
      → kind_of s (base ++ (slash ∷ name)) ≡ none
      → ((s' : State) → (create s' (base ++ (slash ∷ name))).1 ≡ none)
      → (s'' : State) × (make_file s (base ++ (slash ∷ name)) ≡ some (s'', true))
  make_file_failed s base name h new failed =
      let path = base ++ (slash ∷ name) in
      let ((s', made), ran) = make_dir_returns (length base + 1) s base (omega arith) in
      (
        (create s' path).0,
        after_base (length base) s s' path base made (absent-test s path new)
              (rfind-append base name h) (take-append base (slash ∷ name)) ran
            ∙ ap (λ fd. some ((create s' path).0, to_bool fd)) (failed s'),
      )
