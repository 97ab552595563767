-- ===== src/Pool/Blocks.antt =====
-- The blocks that clients of class fixed_block_pool (internal/memory_pool.h) hold, and its statistics.
use container_system.Base.{
  ℕ, suc, ◌-◌, ◌*◌, ◌%◌, ◌^◌, ◌≤◌, ◌≡◌, ◌≢◌, refl, true, false, Bool-cases, inl, inr, Option, none,
  some, List, ◌∷◌, length, ◌==◌, ==_iff, arith,
}
use container_system.Pool.{
  FixedBlockPool, allocate_chunk_unlocked, Allocated, block, bad_alloc, runtime_error, from_chunk,
  allocate, in_chunks, deallocate, get_statistics,
}
use container_system.Pool.Chains.{count_free-Chain, occurrences, starts, starts-in_chunks}
use container_system.Pool.Reachable.{
  Fresh, Valid, Reachable, start, allocated, failed, given_back, foreign,
}
use container_system.Pool.Moves.{new_pool-Valid, pop_block-Valid, chunk-Valid, deallocate-Valid}

-- What a call of `allocate` leaves of the invariant.
abbrev Given : List ℕ → FixedBlockPool × Allocated → Type 0
Given held (q, block a) = (occurrences a held ≡ 0) × Valid q (a ∷ held)
Given held (q, bad_alloc) = Valid q held
Given held (q, runtime_error) = Valid q held

from_chunk-Given :
    (chunk : Option ℕ) (p : FixedBlockPool) (held : List ℕ)
    → Fresh chunk p
    → p.free_list ≡ 0
    → Valid p held
    → Given held (from_chunk chunk p)
from_chunk-Given none p held f e v = v
from_chunk-Given (some base) p held f e v =
    let q = allocate_chunk_unlocked base p in
    let w = chunk-Valid p held base f e v in
    elim (Bool-cases (q.free_list == 0)) [
      | inl b ↦ rw b w
      | inr b ↦ rw b (pop_block-Valid q held (λ z. ground (arith, b, z)) w)
    ]

allocate-Given :
    (chunk : Option ℕ) (p : FixedBlockPool) (held : List ℕ)
    → Fresh chunk p
    → Valid p held
    → Given held (allocate chunk p)
unfolding allocate
allocate-Given chunk p held f v = elim (Bool-cases (p.free_list == 0)) [
  | inl b ↦ rw b (from_chunk-Given chunk p held f ((==_iff p.free_list 0).0 b) v)
  | inr b ↦ rw b (pop_block-Valid p held (λ z. ground (arith, b, z)) v)
]

failed-Valid :
    (o : FixedBlockPool × Allocated) (held : List ℕ)
    → Given held o
    → ((a : ℕ) → o.1 ≢ block a)
    → Valid o.0 held
failed-Valid (q, block a) held g n = absurd (n a refl)
failed-Valid (q, bad_alloc) held g n = g
failed-Valid (q, runtime_error) held g n = g

deallocate-foreign :
    (p : FixedBlockPool) (a : ℕ)
    → in_chunks a (p.block_size * p.blocks_per_chunk) p.chunks ≡ false
    → deallocate a p ≡ p
unfolding deallocate
deallocate-foreign p a i = elim (Bool-cases (a == 0)) [ inl e ↦ rw e refl | inr e ↦ rw (e, i) refl ]

Reachable-Valid :
    {size n : ℕ} {p : FixedBlockPool} {held : List ℕ} → Reachable size n p held → Valid p held
Reachable-Valid {size = size} {n = n} start = new_pool-Valid size n
Reachable-Valid (allocated {p = p} {held = held} chunk q a r f e) =
    let g = allocate-Given chunk p held f (Reachable-Valid r) in (rw e at g).1
Reachable-Valid (failed {p = p} {held = held} chunk q r f none_given e) =
    let g =
      failed-Valid (allocate chunk p) held (allocate-Given chunk p held f (Reachable-Valid r))
        none_given in
    rw e at g
Reachable-Valid (given_back {p = p} {held = held} a r h) =
    deallocate-Valid p held a h (Reachable-Valid r)
Reachable-Valid (foreign {p = p} a r i) = rw (deallocate-foreign p a i) (Reachable-Valid r)

-- In every state that clients reach that give back only what they hold, a block that they hold is held
-- once, is no null pointer, and begins exactly one of the blocks of the chunks, inside them.
pub Reachable-held :
    {size n : ℕ} {p : FixedBlockPool} {held : List ℕ}
    → Reachable size n p held
    → (a : ℕ) → occurrences a held ≢ 0
    → (occurrences a held ≡ 1)
      × (a ≢ 0)
      × (starts p.blocks_per_chunk p.block_size p.chunks a ≡ 1)
      × (in_chunks a (p.block_size * p.blocks_per_chunk) p.chunks ≡ true)
Reachable-held {p = p} {held = held} r a h =
    let v = Reachable-Valid r in
    let one : starts p.blocks_per_chunk p.block_size p.chunks a ≡ 1 =
      omega (arith, h, v.parts a, v.single a) in
    (
      omega (arith, h, v.parts a, v.single a),
      λ e. h (rw e (omega (arith, v.parts 0, v.null))),
      one,
      starts-in_chunks p.blocks_per_chunk p.block_size p.chunks a v.sized
          (λ t. h (omega (arith, v.parts a, t))),
    )

-- In such a state, `get_statistics` ends within one step more than there are blocks, and gives the number of the
-- chunks and of their blocks, as allocated blocks the number of those held, and as free blocks all others.
pub Reachable-get_statistics :
    {size n : ℕ} {p : FixedBlockPool} {held : List ℕ}
    → Reachable size n p held
    → (length held ≤ length p.chunks * p.blocks_per_chunk)
      × (get_statistics (suc (length p.chunks * p.blocks_per_chunk)) p
          ≡ some (record {
            total_chunks = length p.chunks;
            allocated_blocks = length held % 2 ^ 64;
            total_capacity = length p.chunks * p.blocks_per_chunk;
            free_blocks = length p.chunks * p.blocks_per_chunk - length held;
          }))
unfolding get_statistics
Reachable-get_statistics {p = p} {held = held} r =
    let v = Reachable-Valid r in
    let capacity = length p.chunks * p.blocks_per_chunk in
    let free : length v.free ≡ capacity - length held = omega (arith, v.total) in
    let ends =
      count_free-Chain (suc capacity) p.memory p.free_list v.free (omega (arith, v.total))
        v.chain in
    (omega (arith, v.total), rw (v.count, ends, free) refl)
