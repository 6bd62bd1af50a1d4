-- ===== src/Rdma/BufferPool/Fill.antt =====
-- A pool as its constructor leaves it.
use rdma_ai_platform.Assoc.{contains, contains-insert, contains-concat, concat-IsDistinct}
use rdma_ai_platform.Common.{
  ◌∙◌, length-append, zero, suc, ◌+◌, ◌^◌, ◌<◌, ◌≡◌, inl, inr, false, [], arith, replicate,
  Bool-cases, ℕ,
}
use rdma_ai_platform.Rdma.BufferPool.Registered.{IsSound, register-IsSound_fields}
use rdma_ai_platform.Rdma.BufferPool.Acquire.{not-contains-nil}
use rdma_ai_platform.Rdma.BufferPool.{Memory, fill_round, fill, make, available}
use rdma_ai_platform.Rdma.Config.{BufferPoolConfig}
use rdma_ai_platform.Rdma.Heap.{Heap}
use rdma_ai_platform.Rdma.MemoryRegion.Registry.{
  IsFresh, register-IsFresh, register-unused, register-next_region_id,
}
use rdma_ai_platform.Rdma.MemoryRegion.{MemoryRegistry, register, register_size, lookup}
use rdma_ai_platform.Rdma.Types.{ByteBuffer}
use rdma_ai_platform.Text.{Text}

-- A key that the pool knows is not the next one to be given out.
next-unknown :
    (zeros : ByteBuffer) (m : Memory)
    → suc m.registry.next_region_id < 2 ^ 64
    → IsSound m
    → contains (register zeros m.registry m.heap).0.key m.pool.known_keys ≡ false
unfolding lookup
next-unknown zeros m room v = elim (Bool-cases (contains new m.pool.known_keys)) [
  | inr unknown ↦ unknown
  | inl known ↦
      let (region, bytes, found, loaded, named) = v.known_registered new known in
      cc (register-unused zeros m.registry m.heap room v.fresh)
]
  where
    new : Text
    new = (register zeros m.registry m.heap).0.key

next-not_free :
    (zeros : ByteBuffer) (m : Memory)
    → suc m.registry.next_region_id < 2 ^ 64
    → IsSound m
    → contains (register zeros m.registry m.heap).0.key m.pool.free_keys ≡ false
next-not_free zeros m room v =
    ground
      (arith, next-unknown zeros m room v, v.free_known (register zeros m.registry m.heap).0.key)

fill_round-IsSound :
    (m : Memory) → suc m.registry.next_region_id < 2 ^ 64 → IsSound m → IsSound (fill_round m)
unfolding fill_round register_size
fill_round-IsSound m room v = record {
  fresh = register-IsFresh zeros m.registry m.heap room v.fresh;
  distinct = concat-IsDistinct new m.pool.free_keys (next-not_free zeros m room v) v.distinct;
  free_known = λ k c. ground (
    arith,
    contains-concat new k m.pool.free_keys,
    contains-insert new k m.pool.known_keys,
    v.free_known k,
  );
  known_registered = register-IsSound_fields zeros m room v;
}
  where
    zeros : ByteBuffer
    zeros = replicate m.pool.config.buffer_size 0

    new : Text
    new = (register zeros m.registry m.heap).0.key

fill_round-sizes :
    (m : Memory)
    → suc m.registry.next_region_id < 2 ^ 64
    → ((fill_round m).registry.next_region_id ≡ suc m.registry.next_region_id)
      × (available (fill_round m).pool ≡ available m.pool + 1)
unfolding fill_round register_size available
fill_round-sizes m room = (
  register-next_region_id (replicate m.pool.config.buffer_size 0) m.registry m.heap room,
  length-append m.pool.free_keys _,
)

fill-IsSound :
    (n : ℕ) (m : Memory)
    → m.registry.next_region_id + n < 2 ^ 64
    → IsSound m
    → IsSound (fill n m) × (available (fill n m).pool ≡ available m.pool + n)
unfolding fill
fill-IsSound zero m room v = (v, omega arith)
fill-IsSound (suc n) m room v =
    let (id, more) = fill_round-sizes m (omega arith) in
    let (sound, count) =
      fill-IsSound n (fill_round m) (omega arith) (fill_round-IsSound m (omega arith) v) in
    (sound, omega arith)

-- The constructor leaves a sound pool with as many free buffers as its configuration says.
pub make-IsSound :
    (c : BufferPoolConfig) (r : MemoryRegistry) (h : Heap)
    → r.next_region_id + c.buffers < 2 ^ 64
    → IsFresh r
    → IsSound (make c r h) × (available (make c r h).pool ≡ c.buffers)
unfolding make
make-IsSound c r h room f =
    let (sound, count) =
      fill-IsSound c.buffers
        (record {
          pool = record { config = c; free_keys = []; known_keys = [] };
          registry = r;
          heap = h;
        })
        room start in
    (sound, count ∙ (unfold available in omega arith))
  where
    start : IsSound (record {
      pool = record { config = c; free_keys = []; known_keys = [] };
      registry = r;
      heap = h;
    })
    start = record {
      fresh = f;
      distinct = tt;
      free_known = λ k e. e;
      known_registered = λ k e. absurd (not-contains-nil k e);
    }
