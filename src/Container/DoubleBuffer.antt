-- ===== src/Container/DoubleBuffer.antt =====
-- `DoubleBuffer` of cpp_lib/container/double_buffer.h, for values and for `std::shared_ptr`.
use cpp_lib.Prelude.{ℕ, zero, suc, ◌-◌, ◌≤◌, ◌≡◌, refl, arith, update}

-- `buffers_` is an array of two, by index.
pub record DoubleBuffer (T : Type 0) : Type 0 where
  pub curr_idx : ℕ
  pub buffers : ℕ → T

abbrev pub IsValid : {T : Type 0} → DoubleBuffer T → Type 0
IsValid b = b.curr_idx ≤ 1

module _ {T : Type 0} where
  unfoldable pub init : T → DoubleBuffer T
  init default = record { curr_idx = 0; buffers = λ _. default }

  -- `Data` and `Get`.
  unfoldable pub get : DoubleBuffer T → T
  get b = b.buffers b.curr_idx

  unfoldable pub next : DoubleBuffer T → T
  next b = b.buffers (1 - b.curr_idx)

  -- A write through the reference that `Next` returns.
  unfoldable pub set_next : DoubleBuffer T → T → DoubleBuffer T
  set_next b v = record b { buffers = update b.buffers (1 - b.curr_idx) v }

  unfoldable pub switch : DoubleBuffer T → DoubleBuffer T
  switch b = record b { curr_idx = 1 - b.curr_idx }

  -- On a double buffer of values whose index is 0 or 1, a write to the spare buffer leaves the
  -- current one, and after the switch the written value is the current one and the old value the
  -- spare one; the index stays 0 or 1.
  pub switch-set_next :
      (b : DoubleBuffer T) (v : T)
      → IsValid b
      → IsValid (switch (set_next b v))
        × (get (set_next b v) ≡ get b)
        × (get (switch (set_next b v)) ≡ v)
        × (next (switch (set_next b v)) ≡ get b)
  unfolding switch set_next get next
  switch-set_next b v h = ground arith
  -- The constructor for `std::shared_ptr<T>`: `buffers_(2, std::make_shared<T>())` copies one
  -- pointer. A buffer holds the addresses of objects in a store.

unfoldable pub init_shared : ℕ → DoubleBuffer ℕ
init_shared address = record { curr_idx = 0; buffers = λ _. address }

unfoldable pub switches : ℕ → DoubleBuffer ℕ → DoubleBuffer ℕ
switches zero b = b
switches (suc n) b = switches n (switch b)

pub shared_buffers :
    (n address : ℕ) (b : DoubleBuffer ℕ)
    → ((i : ℕ) → b.buffers i ≡ address)
    → (i : ℕ) → (switches n b).buffers i ≡ address
unfolding switches switch
shared_buffers zero address b h i = h i
shared_buffers (suc n) address b h i = shared_buffers n address (switch b) h i

-- Whatever the number of switches since the construction of a double buffer of shared pointers,
-- what is written to the object behind `Next` is what is read behind `Get`.
pub get-next_shared :
    {T : Type 0} (n address : ℕ) (store : ℕ → T) (v : T)
    → update store
        (next (switches n (init_shared address)))
        v
        (get (switches n (init_shared address)))
      ≡ v
unfolding init_shared get next
get-next_shared n address store v = ground (
  arith,
  shared_buffers n address (init_shared address) (λ i. refl)
      (switches n (init_shared address)).curr_idx,
  shared_buffers n address (init_shared address) (λ i. refl)
      (1 - (switches n (init_shared address)).curr_idx),
)
