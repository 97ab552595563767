-- ===== src/Pool/Allocator.antt =====
-- class pool_allocator (internal/pool_allocator.h), built with the memory pool. One of them belongs to one
-- thread.
use container_system.Base.{ℕ, ◌+◌, ◌%◌, ◌^◌, Bool, true, false, Option, leb, ◌==◌, if◌then◌else◌}
use container_system.Pool.{FixedBlockPool, new_pool, Allocated, block, bad_alloc, runtime_error}
use container_system.Pool

abbrev pub small_threshold : ℕ
small_threshold = 64

abbrev pub medium_threshold : ℕ
medium_threshold = 256

abbrev pub blocks_per_chunk : ℕ
blocks_per_chunk = 1024

pub record PoolAllocatorStats : Type 0 where
  pub pool_hits : ℕ
  pub pool_misses : ℕ
  pub small_pool_allocs : ℕ
  pub medium_pool_allocs : ℕ
  pub deallocations : ℕ

pub record PoolAllocator : Type 0 where
  pub small_pool : FixedBlockPool
  pub medium_pool : FixedBlockPool
  pub stats : PoolAllocatorStats

abbrev no_stats : PoolAllocatorStats
no_stats = record {
  pool_hits = 0;
  pool_misses = 0;
  small_pool_allocs = 0;
  medium_pool_allocs = 0;
  deallocations = 0;
}

unfoldable pub new_allocator : PoolAllocator
new_allocator = record {
  small_pool = Pool.new_pool small_threshold blocks_per_chunk;
  medium_pool = Pool.new_pool medium_threshold blocks_per_chunk;
  stats = no_stats;
}

abbrev next : ℕ → ℕ
next n = (n + 1) % 2 ^ 64

-- `::operator new(size, std::nothrow)`, which returns `heap`
abbrev from_heap : ℕ → PoolAllocator → PoolAllocator × ℕ
from_heap heap s =
    (record s { stats = record s.stats { pool_misses = next s.stats.pool_misses } }, heap)

-- A pool that throws leaves the heap to serve.
abbrev from_small : ℕ → PoolAllocator → FixedBlockPool × Allocated → PoolAllocator × ℕ
from_small heap s (p, block a) = (
  record s {
    small_pool = p;
    stats = record s.stats {
      pool_hits = next s.stats.pool_hits;
      small_pool_allocs = next s.stats.small_pool_allocs;
    };
  },
  a,
)
from_small heap s (p, bad_alloc) = from_heap heap (record s { small_pool = p })
from_small heap s (p, runtime_error) = from_heap heap (record s { small_pool = p })

abbrev from_medium : ℕ → PoolAllocator → FixedBlockPool × Allocated → PoolAllocator × ℕ
from_medium heap s (p, block a) = (
  record s {
    medium_pool = p;
    stats = record s.stats {
      pool_hits = next s.stats.pool_hits;
      medium_pool_allocs = next s.stats.medium_pool_allocs;
    };
  },
  a,
)
from_medium heap s (p, bad_alloc) = from_heap heap (record s { medium_pool = p })
from_medium heap s (p, runtime_error) = from_heap heap (record s { medium_pool = p })

-- `chunk` and `heap` are what `new` returns for a chunk and for the heap; the result 0 is `nullptr`.
unfoldable pub allocate : Option ℕ → ℕ → ℕ → PoolAllocator → PoolAllocator × ℕ
allocate chunk heap size s =
    if size == 0
    then (s, 0)
    else if leb size small_threshold
    then from_small heap s (Pool.allocate chunk s.small_pool)
    else if leb size medium_threshold
    then from_medium heap s (Pool.allocate chunk s.medium_pool)
    else from_heap heap s

abbrev count_deallocation : PoolAllocator → PoolAllocator
count_deallocation s = record s {
  stats = record s.stats { deallocations = next s.stats.deallocations };
}

-- Also whether the address went to `::operator delete`.
unfoldable pub deallocate : ℕ → ℕ → PoolAllocator → PoolAllocator × Bool
deallocate ptr size s =
    let counted = count_deallocation s in
    if ptr == 0
    then (s, false)
    else if leb size small_threshold
    then (record counted { small_pool = Pool.deallocate ptr s.small_pool }, false)
    else if leb size medium_threshold
    then (record counted { medium_pool = Pool.deallocate ptr s.medium_pool }, false)
    else (counted, true)

abbrev pub get_stats : PoolAllocator → PoolAllocatorStats
get_stats s = s.stats

abbrev pub reset_stats : PoolAllocator → PoolAllocator
reset_stats s = record s { stats = no_stats }

unfoldable pub get_size_class : ℕ → ℕ
get_size_class size =
    if leb size small_threshold then 0 else if leb size medium_threshold then 1 else 2

unfoldable pub is_pool_allocatable : ℕ → Bool
is_pool_allocatable size = leb size medium_threshold
