-- ===== src/Pool/Reachable.antt =====
-- The states of class fixed_block_pool (internal/memory_pool.h) that its clients reach, with the blocks that
-- they hold, and the invariant of these states.
use container_system.Base.{
  ℕ, ◌+◌, ◌*◌, ◌%◌, ◌^◌, ◌≤◌, ◌≡◌, ◌≢◌, false, Option, none, some, List, [], ◌∷◌, length, ◌==◌,
  if◌then◌else◌,
}
use container_system.Pool.{FixedBlockPool, new_pool, block, allocate, in_chunks, deallocate}
use container_system.Pool.Chains.{Chain, occurrences, starts, Apart}

-- The list without one occurrence of an address.
abbrev pub without : ℕ → List ℕ → List ℕ
without a [] = []
without a (b ∷ bs) = let rest = without a bs in if a == b then bs else b ∷ rest

-- What `new` does: it throws, or returns the base of memory that no chunk has.
abbrev pub Fresh : Option ℕ → FixedBlockPool → Type 0
Fresh none p = Unit
Fresh (some base) p = (base ≢ 0) × Apart base (p.block_size * p.blocks_per_chunk) p.chunks

-- A client holds what `allocate` gave it until it gives it back, and gives back only what it holds, or
-- addresses outside the chunks.
pub data Reachable (size n : ℕ) : FixedBlockPool → List ℕ → Type 0 where
  start : Reachable size n (new_pool size n) []
  allocated :
      {p : FixedBlockPool} {held : List ℕ} (chunk : Option ℕ) (q : FixedBlockPool) (a : ℕ)
      → Reachable size n p held
      → Fresh chunk p
      → allocate chunk p ≡ (q, block a)
      → Reachable size n q (a ∷ held)
  failed :
      {p : FixedBlockPool} {held : List ℕ} (chunk : Option ℕ) (q : FixedBlockPool)
      → Reachable size n p held
      → Fresh chunk p
      → ((a : ℕ) → (allocate chunk p).1 ≢ block a)
      → (allocate chunk p).0 ≡ q
      → Reachable size n q held
  given_back :
      {p : FixedBlockPool} {held : List ℕ} (a : ℕ)
      → Reachable size n p held
      → occurrences a held ≢ 0
      → Reachable size n (deallocate a p) (without a held)
  foreign :
      {p : FixedBlockPool} {held : List ℕ} (a : ℕ)
      → Reachable size n p held
      → in_chunks a (p.block_size * p.blocks_per_chunk) p.chunks ≡ false
      → Reachable size n (deallocate a p) held

-- Every block of a chunk is in the free list or held, once.
pub record Valid (p : FixedBlockPool) (held : List ℕ) : Type 0 where
  pub free : List ℕ
  pub chain : Chain p.memory p.free_list free
  pub parts :
      (a : ℕ)
      → occurrences a free + occurrences a held ≡ starts p.blocks_per_chunk p.block_size p.chunks a
  pub single : (a : ℕ) → starts p.blocks_per_chunk p.block_size p.chunks a ≤ 1
  pub total : length free + length held ≡ length p.chunks * p.blocks_per_chunk
  pub count : p.allocated_count ≡ length held % 2 ^ 64
  pub sized : p.block_size ≢ 0
  pub null : starts p.blocks_per_chunk p.block_size p.chunks 0 ≡ 0
