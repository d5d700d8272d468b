-- ===== src/Container/HashMap.antt =====
-- `tbb::concurrent_hash_map`, which is not part of the repository: its operations as the code
-- calls them, and what its documentation promises of them.
use cpp_lib.Prelude.{ℕ, ◌+◌, ◌≡◌, ◌≢◌, Option, none, some}

-- `find` is `find(accessor, k)` with what the accessor then points at. `put` is the write through
-- an accessor of a key, which `insert(accessor, k)` has put into the map if it was not there.
pub record HashMap (K V : Type 0) : Type 1 where
  pub Table : Type 0
  pub empty : Table
  pub find : Table → K → Option V
  pub put : Table → K → V → Table
  pub erase : Table → K → Table
  pub size : Table → ℕ
  pub find-empty : (k : K) → find empty k ≡ none
  pub find-put_self : (t : Table) (k : K) (v : V) → find (put t k v) k ≡ some v
  pub find-put_ne : (t : Table) (k j : K) (v : V) → k ≢ j → find (put t k v) j ≡ find t j
  pub find-erase_self : (t : Table) (k : K) → find (erase t k) k ≡ none
  pub find-erase_ne : (t : Table) (k j : K) → k ≢ j → find (erase t k) j ≡ find t j
  pub size-empty : size empty ≡ 0
  pub size-put_new : (t : Table) (k : K) (v : V) → find t k ≡ none → size (put t k v) ≡ size t + 1
  pub size-put_old : (t : Table) (k : K) (v w : V) → find t k ≡ some w → size (put t k v) ≡ size t
  pub size-erase : (t : Table) (k : K) (w : V) → find t k ≡ some w → size (erase t k) + 1 ≡ size t
