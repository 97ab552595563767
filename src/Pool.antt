-- ===== src/Pool.antt =====
-- class fixed_block_pool (internal/memory_pool.h). An address is a number, 0 is `nullptr`; `memory` is the first
-- word of the block at an address, where the pool keeps its links. What `new` returns is an argument of `allocate`.
-- Every method takes the lock and is one step.
pub mod Allocator
pub mod Chains
pub mod Reachable
pub mod Moves
pub mod Blocks
mod Examples
use container_system.Base.{
  ℕ, zero, suc, ◌+◌, ◌-◌, ◌*◌, ◌%◌, ◌^◌, Bool, true, false, Option, none, some, List, [], ◌∷◌, ◌++◌,
  length, ltb, leb, ◌==◌, ◌&&◌, ◌||◌, if◌then◌else◌,
}

-- `chunks` has the base address of each.
pub record FixedBlockPool : Type 0 where
  pub block_size : ℕ
  pub blocks_per_chunk : ℕ
  pub chunks : List ℕ
  pub free_list : ℕ
  pub allocated_count : ℕ
  pub memory : ℕ → ℕ

-- `sizeof(void*)` is 8.
unfoldable pub new_pool : ℕ → ℕ → FixedBlockPool
new_pool block_size blocks_per_chunk = record {
  block_size = if ltb block_size 8 then 8 else block_size;
  blocks_per_chunk = blocks_per_chunk;
  chunks = [];
  free_list = 0;
  allocated_count = 0;
  memory = λ _. 0;
}

-- A store of a word.
abbrev pub store : (ℕ → ℕ) → ℕ → ℕ → ℕ → ℕ
store memory a w b = if a == b then w else memory b

-- The loop over the blocks from `i` on, `n` of them, on the head of the free list and the memory.
unfoldable pub link_blocks : ℕ → ℕ → ℕ → ℕ → ℕ × (ℕ → ℕ) → ℕ × (ℕ → ℕ)
link_blocks zero i base size links = links
link_blocks (suc n) i base size (head, memory) =
    link_blocks n (suc i) base size (base + i * size, store memory (base + i * size) head)

unfoldable pub allocate_chunk_unlocked : ℕ → FixedBlockPool → FixedBlockPool
unfolding link_blocks
allocate_chunk_unlocked base p =
    let links = link_blocks p.blocks_per_chunk 0 base p.block_size (p.free_list, p.memory) in
    record p { chunks = p.chunks ++ (base ∷ []); free_list = links.0; memory = links.1 }

-- A block, or the exception.
pub data Allocated : Type 0 where
  block : ℕ → Allocated
  bad_alloc : Allocated
  runtime_error : Allocated

abbrev pub pop_block : FixedBlockPool → FixedBlockPool × Allocated
pop_block p = (
  record p { free_list = p.memory p.free_list; allocated_count = (p.allocated_count + 1) % 2 ^ 64 },
  block p.free_list,
)

abbrev pub from_chunk : Option ℕ → FixedBlockPool → FixedBlockPool × Allocated
from_chunk none p = (p, bad_alloc)
from_chunk (some base) p =
    let q = allocate_chunk_unlocked base p in
    if q.free_list == 0 then (q, runtime_error) else pop_block q

-- `chunk` is what `new` returns, if it is called: `none` is a std::bad_alloc.
unfoldable pub allocate : Option ℕ → FixedBlockPool → FixedBlockPool × Allocated
unfolding allocate_chunk_unlocked
allocate chunk p = if p.free_list == 0 then from_chunk chunk p else pop_block p

unfoldable pub in_chunks : ℕ → ℕ → List ℕ → Bool
in_chunks a size [] = false
in_chunks a size (start ∷ chunks) = (leb start a && ltb a (start + size)) || in_chunks a size chunks

unfoldable pub deallocate : ℕ → FixedBlockPool → FixedBlockPool
deallocate a p =
    if a == 0
    then p
    else if in_chunks a (p.block_size * p.blocks_per_chunk) p.chunks
    then record p {
      memory = store p.memory a p.free_list;
      free_list = a;
      allocated_count = (p.allocated_count + (2 ^ 64 - 1)) % 2 ^ 64;
    }
    else p

pub record Statistics : Type 0 where
  pub total_chunks : ℕ
  pub allocated_blocks : ℕ
  pub total_capacity : ℕ
  pub free_blocks : ℕ

abbrev counted : Option ℕ → Option ℕ
counted none = none
counted (some n) = some (suc n)

-- The loop along the free list: `none` when the fuel is used up.
unfoldable pub count_free : ℕ → (ℕ → ℕ) → ℕ → Option ℕ
count_free zero memory current = none
count_free (suc fuel) memory current =
    let rest = count_free fuel memory (memory current) in
    if current == 0 then some 0 else counted rest

abbrev with_free : FixedBlockPool → Option ℕ → Option Statistics
with_free p none = none
with_free p (some n) = some (record {
  total_chunks = length p.chunks;
  allocated_blocks = p.allocated_count;
  total_capacity = length p.chunks * p.blocks_per_chunk;
  free_blocks = n;
})

unfoldable pub get_statistics : ℕ → FixedBlockPool → Option Statistics
unfolding count_free
get_statistics fuel p = with_free p (count_free fuel p.memory p.free_list)
