-- ===== src/Reloader/File/Mapping.antt =====
-- `MMapData` of cpp_lib/reloader/reloadable_file.cc: its pointer and its length go together.
use cpp_lib.Prelude.{ℕ, ◌≡◌, ◌⊎◌, Bool, true, false, Option, none, some, arith}
use cpp_lib.Reloader.File.{MMapData, munmap, mmap}

-- Without a mapping the length is 0.
unfoldable pub IsUnmapped : MMapData → Type 0
IsUnmapped m = (m.map_data ≡ none) × (m.length ≡ 0)

unfoldable pub IsPaired : MMapData → Type 0
IsPaired m = ((p : ℕ) × (m.map_data ≡ some p)) ⊎ IsUnmapped m

module _ (munmap_fails : Bool) (m : MMapData) (paired : IsPaired m) where
  -- `Munmap` leaves no mapping and returns true, or fails on a mapping and changes nothing.
  pub munmap-IsPaired :
      ((munmap munmap_fails m).1 ≡ true) × IsUnmapped (munmap munmap_fails m).0
      ⊎ ((munmap munmap_fails m).1 ≡ false)
        × ((munmap munmap_fails m).0 ≡ m)
        × ((p : ℕ) × (m.map_data ≡ some p))
  unfolding munmap IsPaired IsUnmapped
  munmap-IsPaired = ground arith

  -- `MMap` returns 0 with the new mapping and its length, or -1 with no mapping at all, or -1 with
  -- the old mapping, which could not be undone.
  pub mmap-IsPaired :
      (mapped : Option ℕ) (length : ℕ)
      → let r = mmap munmap_fails mapped length m in
        ((p : ℕ) × (mapped ≡ some p) × (r ≡ (record { map_data = some p; length = length }, 0)))
        ⊎ (r.1 ≡ 1) × IsUnmapped r.0
        ⊎ (r.1 ≡ 1) × (r.0 ≡ m) × (munmap_fails ≡ true)
  unfolding mmap munmap IsPaired IsUnmapped
  mmap-IsPaired mapped length = ground arith
