-- ===== src/Rdma/BufferPool.antt =====
-- rdma/include/rdma/buffer_pool.h and rdma/src/buffer_pool.cpp: keys of registered buffers, some of
-- them free. Each method runs under the pool's mutex and is one step on the pool, the registry that
-- it points to and the heap. No region, or a false flag, stands for an exception that `Lookup`
-- throws.
pub mod Registered
pub mod Acquire
pub mod Release
pub mod Fill
use rdma_ai_platform.Assoc.{contains, insert}
use rdma_ai_platform.Common.{
  ℕ, zero, suc, ◌≡◌, refl, Bool, true, false, List, [], ◌∷◌, ◌++◌, Option, none, some, not, ◌==◌,
  if◌then◌else◌, length,
}
use rdma_ai_platform.Rdma.Config.{BufferPoolConfig}
use rdma_ai_platform.Rdma.Heap.{Heap, load, resize_at, size_at}
use rdma_ai_platform.Rdma.MemoryRegion.{MemoryRegion, MemoryRegistry, register_size, lookup}
use rdma_ai_platform.Text.{Text}

pub record BufferPool : Type 0 where
  pub config : BufferPoolConfig
  pub free_keys : List Text
  pub known_keys : List Text

-- The pool, its registry and the heap.
pub record Memory : Type 0 where
  pub pool : BufferPool
  pub registry : MemoryRegistry
  pub heap : Heap

-- One round of the constructor's loop.
unfoldable pub fill_round : Memory → Memory
fill_round m =
    let (region, registry, heap) = register_size m.pool.config.buffer_size m.registry m.heap in
    record {
      pool = record {
        config = m.pool.config;
        free_keys = m.pool.free_keys ++ region.key ∷ [];
        known_keys = insert region.key m.pool.known_keys;
      };
      registry = registry;
      heap = heap;
    }

-- The loop, with `n` rounds left.
unfoldable pub fill : ℕ → Memory → Memory
fill zero m = m
fill (suc n) m = fill n (fill_round m)

unfoldable pub make : BufferPoolConfig → MemoryRegistry → Heap → Memory
make config registry heap = fill config.buffers (record {
  pool = record { config = config; free_keys = []; known_keys = [] };
  registry = registry;
  heap = heap;
})

-- With no free key: register another buffer.
unfoldable pub acquire_new : Memory → Memory × Option MemoryRegion
acquire_new m =
    let (region, registry, heap) = register_size m.pool.config.buffer_size m.registry m.heap in
    (
      record {
        pool = record m.pool { known_keys = insert region.key m.pool.known_keys };
        registry = registry;
        heap = heap;
      },
      some region,
    )

-- `storage() != nullptr && storage()->size() != buffer_size`, and the resize under it.
unfoldable pub fit : ℕ → MemoryRegion → Heap → Heap
unfolding load size_at resize_at
fit n region heap = elim region.storage [
  | none ↦ heap
  | some i ↦ if not (size_at (some i) heap == n) then resize_at (some i) n heap else heap
]

-- With the first free key. It is taken off the list before it is looked up.
unfoldable pub acquire_free : Text → List Text → Memory → Memory × Option MemoryRegion
unfolding fit
acquire_free key rest m =
    let popped = record m { pool = record m.pool { free_keys = rest } } in
    elim (lookup key m.registry) [
      | none ↦ (popped, none)
      | some region ↦
          (record popped { heap = fit m.pool.config.buffer_size region m.heap }, some region)
    ]

unfoldable pub acquire_in : List Text → Memory → Memory × Option MemoryRegion
unfolding acquire_new acquire_free
acquire_in [] m = acquire_new m
acquire_in (key ∷ rest) m = acquire_free key rest m

unfoldable pub acquire : Memory → Memory × Option MemoryRegion
unfolding acquire_in
acquire m = acquire_in m.pool.free_keys m

-- The part of `Release` behind its two tests.
unfoldable pub put_back : Text → Memory → Memory × Bool
put_back key m = elim (lookup key m.registry) [
  | none ↦ (m, false)
  | some region ↦ (
    record m {
      pool = record m.pool { free_keys = m.pool.free_keys ++ key ∷ [] };
      heap = resize_at region.storage m.pool.config.buffer_size m.heap;
    },
    true,
  )
]

unfoldable pub release : Text → Memory → Memory × Bool
unfolding put_back
release key m =
    if not (contains key m.pool.known_keys)
    then (m, true)
    else if contains key m.pool.free_keys
    then (m, true)
    else put_back key m

unfoldable pub available : BufferPool → ℕ
available p = length p.free_keys
