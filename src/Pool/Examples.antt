-- ===== src/Pool/Examples.antt =====
-- Runs of class fixed_block_pool (internal/memory_pool.h) and class pool_allocator (internal/pool_allocator.h).
use container_system.Base.{
  ℕ, suc, ◌*◌, ◌-◌, ◌%◌, ◌^◌, ◌≤◌, ◌≡◌, ◌≢◌, refl, true, false, none, some, List, [], ◌∷◌, length,
  arith,
}
use container_system.Pool.{
  FixedBlockPool, new_pool, allocate, block, deallocate, in_chunks, get_statistics,
}
use container_system.Pool.Chains.{occurrences, starts}
use container_system.Pool.Reachable.{Reachable, start, allocated, given_back}
use container_system.Pool.Blocks.{Reachable-held, Reachable-get_statistics}
use container_system.Pool.Allocator

-- Two blocks of 16 bytes in a chunk at 1000: both are handed out, and the second one comes back.
abbrev empty_pool : FixedBlockPool
empty_pool = new_pool 16 2

abbrev one_held : FixedBlockPool
one_held = (allocate (some 1000) empty_pool).0

abbrev two_held : FixedBlockPool
two_held = (allocate none one_held).0

abbrev pool_again : FixedBlockPool
pool_again = deallocate 1016 two_held

first-block : allocate (some 1000) empty_pool ≡ (one_held, block 1016)
unfolding allocate new_pool
first-block = refl

second-block : allocate none one_held ≡ (two_held, block 1000)
unfolding allocate new_pool
second-block = refl

abbrev kept_block : ℕ
kept_block = 1000

abbrev still_held : List ℕ
still_held = kept_block ∷ []

sample_state : Reachable 16 2 pool_again still_held
unfolding new_pool
sample_state =
    given_back 1016
      (allocated none two_held 1000
        (allocated (some 1000) one_held 1016 start (λ e. absurd (omega arith), tt) first-block) tt
        second-block)
      (λ e. absurd (omega arith))

-- A block that is given back twice is handed out twice.
double_free :
    let freed = deallocate 1016 (deallocate 1016 two_held) in
    let again = allocate none freed in
    (again.1 ≡ block 1016) × ((allocate none again.0).1 ≡ block 1016)
unfolding allocate deallocate new_pool in_chunks
double_free = (refl, refl)

-- What the heap served when the small pool had no memory never goes back to the heap.
heap_leak :
    let (s, a) = Allocator.allocate none 5000 40 Allocator.new_allocator in
    (a ≡ 5000) × ((Allocator.deallocate a 40 s).1 ≡ false)
unfolding Allocator.allocate Allocator.deallocate Allocator.new_allocator allocate new_pool
heap_leak = (refl, refl)

Reachable-held_example :
    (occurrences kept_block still_held ≡ 1)
    × (kept_block ≢ 0)
    × (starts pool_again.blocks_per_chunk pool_again.block_size pool_again.chunks kept_block ≡ 1)
    × (in_chunks kept_block (pool_again.block_size * pool_again.blocks_per_chunk) pool_again.chunks
        ≡ true)
Reachable-held_example = Reachable-held sample_state kept_block (λ e. absurd (omega arith))

Reachable-get_statistics_example :
    (length still_held ≤ length pool_again.chunks * pool_again.blocks_per_chunk)
    × (get_statistics (suc (length pool_again.chunks * pool_again.blocks_per_chunk)) pool_again
        ≡ some (record {
          total_chunks = length pool_again.chunks;
          allocated_blocks = length still_held % 2 ^ 64;
          total_capacity = length pool_again.chunks * pool_again.blocks_per_chunk;
          free_blocks = length pool_again.chunks * pool_again.blocks_per_chunk - length still_held;
        }))
Reachable-get_statistics_example = Reachable-get_statistics sample_state
