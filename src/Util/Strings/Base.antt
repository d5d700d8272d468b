-- ===== src/Util/Strings/Base.antt =====
-- `GetBaseName` and `RandomStr` of cpp_lib/util/strings/util.cc.
use cpp_lib.Prelude.{
  ℕ, zero, suc, ◌+◌, ◌%◌, ◌≤◌, ◌<◌, ◌≡◌, refl, ap, ◌∙◌, sym, Bool, true, ◌&&◌, ◌||◌, Option, none,
  some, inl, inr, [], ◌∷◌, ◌++◌, All, get_elem?, get_elem?-lt, set, length, length-set,
  get_elem?-set_self, get_elem?-set_ne, Bool-cases, take, drop, leb, ltb, ltb→lt, lt→ltb, arith,
}
use native.Mathlib.Decide.{ℕ_discrete, dec_lt}
use cpp_lib.Util.File.Make.{slash, rfind, rfind-append}
use cpp_lib.Util.Strings.{Bytes, get_base_name, alphanum, random_fill, random_str}

drop-behind : (dir name : Bytes) → drop (length dir + 1) (dir ++ (slash ∷ name)) ≡ name
drop-behind [] name = refl
drop-behind (c ∷ cs) name =
    let e : suc (length cs) + 1 ≡ suc (length cs + 1) = omega arith in rw e (drop-behind cs name)

-- Of a path of which the last component is `name`, `GetBaseName` gives that component, with or
-- without a directory before it.
pub get_base_name-append :
    (dir name : Bytes)
    → rfind name ≡ none
    → (get_base_name name ≡ name) × (get_base_name (dir ++ (slash ∷ name)) ≡ name)
unfolding get_base_name
get_base_name-append dir name h =
    (rw (get_base_name, h) refl, rw (get_base_name, rfind-append dir name h) (drop-behind dir name))

-- A digit or a letter.
abbrev pub is_alphanum : ℕ → Bool
is_alphanum c = leb 48 c && leb c 57 || leb 65 c && leb c 90 || leb 97 c && leb c 122

abbrev every_alphanum : Bytes → Bool
every_alphanum [] = true
every_alphanum (c ∷ cs) = is_alphanum c && every_alphanum cs

every-get_elem? :
    (cs : Bytes) (i : ℕ) (c : ℕ)
    → every_alphanum cs ≡ true
    → get_elem? cs i ≡ some c
    → is_alphanum c ≡ true
every-get_elem? [] i c h e = absurd (ground arith)
every-get_elem? (b ∷ bs) zero c h e = ground arith
every-get_elem? (b ∷ bs) (suc i) c h e = every-get_elem? bs i c (ground arith) e

alphanum_every : every_alphanum alphanum ≡ true
alphanum_every = refl

length-alphanum : length alphanum ≡ 62
length-alphanum = refl

-- Some byte of the table stands at the index that `rand` picks.
picked : (r : ℕ) → (c : ℕ) × (get_elem? alphanum (r % 62) ≡ some c) × (is_alphanum c ≡ true)
picked r =
    let (c, at) = get_elem?-lt alphanum (r % 62) (rw length-alphanum (omega arith)) in
    (c, at, every-get_elem? alphanum (r % 62) c alphanum_every at)

-- A byte at the index is a digit or a letter.
Filled : Bytes → ℕ → Type 0
Filled buf j = (c : ℕ) × (get_elem? buf j ≡ some c) × (is_alphanum c ≡ true)

-- Where the rounds fit, each writes one byte, and the bytes before it stay.
Filled-next :
    (buf : Bytes) (i c : ℕ)
    → is_alphanum c ≡ true
    → ((j : ℕ) → j < i → Filled buf j)
    → i < length buf
    → (j : ℕ) → j < i + 1
    → Filled (set buf i c) j
unfolding Filled
Filled-next buf i c good filled room j lt = elim (ℕ_discrete j i) [
  | yes e ↦ (c, rw e (get_elem?-set_self buf i c room), good)
  | no ne ↦
      let (b, at, fine) = filled j (omega (arith, ne)) in
      (b, get_elem?-set_ne buf i j c (λ e. ne (sym e)) ∙ at, fine)
]

random_fill_fits :
    (rand : ℕ → ℕ) (left i : ℕ) (buf : Bytes)
    → i + left ≤ length buf
    → ((j : ℕ) → j < i → Filled buf j)
    → (buf' : Bytes) × (random_fill rand left i buf ≡ some buf')
      × (length buf' ≡ length buf)
      × ((j : ℕ) → j < i + left → Filled buf' j)
unfolding random_fill
random_fill_fits rand zero i buf h filled = (buf, refl, refl, λ j lt. filled j (omega arith))
random_fill_fits rand (suc left) i buf h filled =
    let (c, at, good) = picked (rand i) in
    let before : (j : ℕ) → j < i + 1 → Filled (set buf i c) j =
      Filled-next buf i c good filled (omega arith) in
    let (buf', done, same, all) =
      random_fill_fits rand left (i + 1) (set buf i c) (omega (arith, length-set buf i c)) before in
    (
      buf',
      rw (random_fill, at, lt→ltb i (length buf) (omega arith)) done,
      same ∙ length-set buf i c,
      λ j lt. all j (omega arith),
    )

random_fill_overflow :
    (rand : ℕ → ℕ) (left i : ℕ) (buf : Bytes)
    → i ≤ length buf
    → length buf < i + left
    → random_fill rand left i buf ≡ none
unfolding random_fill
random_fill_overflow rand zero i buf h over = absurd (omega arith)
random_fill_overflow rand (suc left) i buf h over =
    let (c, at, good) = picked (rand i) in
    elim (Bool-cases (ltb i (length buf))) [
      | inl room ↦
          rw (random_fill, at, room)
            (random_fill_overflow rand left (i + 1) (set buf i c)
              (omega (arith, length-set buf i c, ltb→lt i (length buf) room))
              (omega (arith, length-set buf i c)))
      | inr full ↦ rw (random_fill, at, full) refl
    ]

-- The first `n` bytes, each of which is filled.
take-Filled :
    (n : ℕ) (buf : Bytes)
    → n ≤ length buf
    → ((j : ℕ) → j < n → Filled buf j)
    → (length (take n buf) ≡ n) × All (λ c. is_alphanum c ≡ true) (take n buf)
unfolding Filled
take-Filled zero buf h filled = (refl, tt)
take-Filled (suc n) [] h filled = absurd (omega arith)
take-Filled (suc n) (b ∷ bs) h filled =
    let (c, at, good) = filled 0 (omega arith) in
    let same : c ≡ b = cc at in
    let (long, all) = take-Filled n bs (omega arith) (λ j lt. filled (suc j) (omega arith)) in
    (ap suc long, (ap is_alphanum (sym same) ∙ good, all))

-- What `RandomStr` comes to: as many digits and letters as asked for, up to 1024, and otherwise a
-- write outside of the buffer.
abbrev pub Drawn : ℕ → Option Bytes → Type 0
Drawn len none = 1024 < len
Drawn len (some s) = (len ≤ 1024) × (length s ≡ len) × All (λ c. is_alphanum c ≡ true) s

-- Whatever `rand` returns, `RandomStr` of a length up to 1024 gives that many digits and letters,
-- and of a greater length it writes outside of its buffer of 1024 bytes.
pub random_str-Drawn :
    (rand : ℕ → ℕ) (buf : Bytes) (len : ℕ) → length buf ≡ 1024 → Drawn len (random_str rand buf len)
unfolding random_str
random_str-Drawn rand buf len size = elim (dec_lt 1024 len) [
  | yes over ↦
      rw (random_str, random_fill_overflow rand len 0 buf (omega arith) (omega (arith, size))) over
  | no fits ↦
      let (buf', done, same, filled) =
        random_fill_fits rand len 0 buf (omega (arith, size, fits))
          (λ j lt. absurd (omega arith)) in
      let (long, all) =
        take-Filled len buf' (omega (arith, same, size, fits)) (λ j lt. filled j (omega arith)) in
      rw (random_str, done) (omega (arith, fits), long, all)
]
