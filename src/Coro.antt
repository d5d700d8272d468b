-- ===== src/Coro.antt =====
-- `ParallelFor` of cpp_lib/coro/coro.cc: how a range is cut into the parts that threads work on.
pub mod Join
use cpp_lib.Prelude.{
  ℕ, zero, suc, ◌+◌, ◌-◌, ◌≤◌, ◌<◌, ◌%◌, ◌^◌, ◌≡◌, refl, ap, Bool-cases, inl, inr, Option, none,
  some, List, [], ◌∷◌, arith, ltb, if◌then◌else◌, All,
}

-- A call `func(first, last)`.
pub record Part : Type 0 where
  pub start : ℕ
  pub stop : ℕ

-- The body of the loop: the end of the part that begins at `i`.
unfoldable pub part_end : ℕ → ℕ → ℕ → ℕ
part_end i last partition_size =
    let partition_end = (i + partition_size) % 2 ^ 64 in
    if ltb last partition_end then last else partition_end

-- `while (i < last)`: the parts that are started, in order; `none` if the fuel runs out.
unfoldable pub partitions : ℕ → ℕ → ℕ → ℕ → Option (List Part)
partitions zero i last partition_size = none
partitions (suc n) i last partition_size =
    let stop = part_end i last partition_size in
    let rest = partitions n stop last partition_size in
    if ltb i last
    then elim rest [ none ↦ none | some parts ↦ some (record { start = i; stop = stop } ∷ parts) ]
    else some []

-- The calls of `func`. The difference of two `size_t` wraps.
unfoldable pub parallel_for : ℕ → ℕ → ℕ → ℕ → Option (List Part)
parallel_for fuel first last partition_size =
    if ltb ((last + 2 ^ 64 - first) % 2 ^ 64) partition_size
    then some (record { start = first; stop = last } ∷ [])
    else partitions fuel first last partition_size

-- The parts follow one another from `first` to `last`, each of at most `size` indices.
abbrev pub Covers : ℕ → ℕ → ℕ → List Part → Type 0
Covers first last size [] = first ≡ last
Covers first last size (p ∷ parts) =
    (p.start ≡ first)
    × (p.start ≤ p.stop)
    × (p.stop ≤ p.start + size)
    × Covers p.stop last size parts

partitions-Covers :
    (n i last size : ℕ)
    → 0 < size
    → last + size < 2 ^ 64
    → i ≤ last
    → last - i < n
    → (parts : List Part) × (partitions n i last size ≡ some parts)
      × Covers i last size parts
      × All (λ p. p.start < p.stop) parts
unfolding partitions part_end
partitions-Covers zero i last size pos room le f = absurd (omega arith)
partitions-Covers (suc n) i last size pos room le f = elim (Bool-cases (ltb i last)) [
  | inl more ↦
      let stop = part_end i last size in
      let (parts, done, covers, nonempty) =
        partitions-Covers n stop last size pos room (ground arith) (ground arith) in
      (
        record { start = i; stop = stop } ∷ parts,
        rw (more, done) refl,
        (refl, ground arith, ground arith, covers),
        (ground arith, nonempty),
      )
  | inr over ↦ ([], rw over refl, ground arith, tt)
]

-- For a positive `partition_size`, `first <= last` and `last + partition_size` below `2^64`,
-- `last - first + 1` rounds are enough to end the loop, and the calls of `func` cover the range
-- from `first` to `last` without gap or overlap, each with at most `partition_size` indices.
pub parallel_for-Covers :
    (first last size : ℕ)
    → 0 < size
    → last + size < 2 ^ 64
    → first ≤ last
    → (parts : List Part) × (parallel_for (last - first + 1) first last size ≡ some parts)
      × Covers first last size parts
unfolding parallel_for
parallel_for-Covers first last size pos room le =
    elim (Bool-cases (ltb ((last + 2 ^ 64 - first) % 2 ^ 64) size)) [
      | inl small ↦ (
        record { start = first; stop = last } ∷ [],
        rw small refl,
        (refl, le, ground arith, refl),
      )
      | inr large ↦
          let (parts, done, covers, nonempty) =
            partitions-Covers (last - first + 1) first last size pos room le (omega arith) in
          (parts, rw (large, done) refl, covers)
    ]

partitions_zero : (n i last : ℕ) → i < last → last < 2 ^ 64 → partitions n i last 0 ≡ none
unfolding partitions part_end
partitions_zero zero i last h w = refl
partitions_zero (suc n) i last h w =
    let same : part_end i last 0 ≡ i = ground arith in
    ground (arith, ap (λ s. partitions n s last 0) same, partitions_zero n i last h w)

-- With `partition_size` 0 no number of rounds ends the loop on a range that is not empty.
pub parallel_for_zero :
    (fuel first last : ℕ) → first < last → last < 2 ^ 64 → parallel_for fuel first last 0 ≡ none
unfolding parallel_for
parallel_for_zero fuel first last h w = ground (arith, partitions_zero fuel first last h w)
