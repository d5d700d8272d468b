-- ===== src/Tests/Files.antt =====
-- The theorems on cpp_lib/util/file at concrete inputs.
use mathlib.Core.Path.{subst}
use cpp_lib.Prelude.{
  zero, suc, ap, sym, get_elem?, false, ℕ, ◌+◌, ◌≡◌, refl, true, Option, none, some, List, [], ◌∷◌,
  All, length, ◌==◌, if◌then◌else◌, arith,
}
use cpp_lib.Util.File.{Bytes, FileSystem, Kind, directory, regular}
use cpp_lib.Util.File.Listing.{is_dots, join, is_directory, recursive_list_all_files}
use cpp_lib.Util.File.Listing.Files.{Under}
use cpp_lib.Util.File.Listing.Ends.{is_listable, Shallow}
use cpp_lib.Util.File.Listing.Complete.{In, recursive_list_all_files-In}
use cpp_lib.Util.File.Copy.{Read, chunk, Write, wrote, interrupted, file_copy}
use cpp_lib.Util.File.Copy.Content.{content, file_copy_returns}

-- A disk on which each path of one byte is a directory with one file of one byte's name. The state
-- counts the calls that could change something.
abbrev kind : Bytes → Option Kind
kind path =
    if length path == 1 then some directory else if length path == 3 then some regular else none

abbrev disk : FileSystem
disk = record {
  State = ℕ;
  kind_of = λ s path. kind path;
  size_of = λ s path. 4;
  entries = λ s path. if length path == 1 then some ((46 ∷ []) ∷ (120 ∷ []) ∷ []) else none;
  mkdir = λ s path. (s + 1, true);
  create = λ s path. (s + 1, none);
}

abbrev folder : Bytes
folder = 98 ∷ []

abbrev reads : List Read
reads = chunk (1 ∷ 2 ∷ []) ∷ chunk [] ∷ []

abbrev writes : List Write
writes = wrote 1 ∷ interrupted ∷ wrote 1 ∷ []

read_in_full : content reads ≡ 1 ∷ 2 ∷ []
unfolding content
read_in_full = refl

file_copy_returns_example :
    file_copy true true true reads writes ≡ some (true, some (content reads))
file_copy_returns_example =
    file_copy_returns reads writes refl (refl, (refl, (refl, tt))) (ground (arith, read_in_full))

-- No entry of the folder is a directory.
named :
    (i : ℕ) (name : Bytes)
    → get_elem? ((46 ∷ []) ∷ (120 ∷ []) ∷ []) i ≡ some name
    → is_dots name ≡ false
    → is_directory (kind (join folder name)) ≡ true
    → ⊥
named zero name at plain sub =
    let dot : 46 ∷ [] ≡ name = ground (arith, at) in absurd (ground (arith, ap is_dots dot, plain))
named (suc zero) name at plain sub =
    let x : 120 ∷ [] ≡ name = ground (arith, at) in
    absurd (ground (arith, ap (λ n. is_directory (kind (join folder n))) x, sub))
named (suc (suc i)) name at plain sub = absurd (ground (arith, at))

some_injective :
    (names : List Bytes)
    → some ((46 ∷ []) ∷ (120 ∷ []) ∷ []) ≡ some names
    → (46 ∷ []) ∷ (120 ∷ []) ∷ [] ≡ names
some_injective names e = ground (arith, e)

shallow : Shallow disk 0 1 folder
unfolding Shallow
shallow names i name read at plain sub = absurd (
    named i name (subst (λ ns. get_elem? ns i ≡ some name) (sym (some_injective names read)) at)
      plain sub)

recursive_list_all_files-In_example :
    (fs : List Bytes) × (recursive_list_all_files disk 2 0 folder [] []
      ≡ some (is_listable (disk.kind_of 0 folder) (disk.entries 0 folder), fs))
    × (is_listable (disk.kind_of 0 folder) (disk.entries 0 folder) ≡ true
        → All (Under disk 0 folder) fs × ((rel : Bytes) → Under disk 0 folder rel → In rel fs))
recursive_list_all_files-In_example = recursive_list_all_files-In disk 0 1 folder shallow
