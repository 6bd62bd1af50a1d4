-- ===== src/Tests/Memory.antt =====
-- Regions and buffer pools.
use rdma_ai_platform.Common.{◌⊎◌, false, ◌≡◌, some, true, [], ◌∷◌, arith, ◌+◌, ◌≢◌, if◌then◌else◌}
use rdma_ai_platform.Rdma.BufferPool as Pool
use rdma_ai_platform.Rdma.BufferPool.Acquire.{Acquired, acquire-Acquired}
use rdma_ai_platform.Rdma.BufferPool.Fill.{make-IsSound}
use rdma_ai_platform.Rdma.BufferPool.Registered.{IsSound}
use rdma_ai_platform.Rdma.BufferPool.Release.{is_leased, Returned, release-IsSound}
use rdma_ai_platform.Rdma.BufferPool.{Memory, acquire, release, available}
use rdma_ai_platform.Rdma.Config.{BufferPoolConfig}
use rdma_ai_platform.Rdma.Heap.{load}
use rdma_ai_platform.Rdma.MemoryRegion.Registry.{IsFresh, empty_registry-IsFresh, register_lem}
use rdma_ai_platform.Rdma.MemoryRegion.{
  register_size, empty_registry, register, lookup, registry_size,
}
use rdma_ai_platform.Rdma.Types.{ByteBuffer}
use rdma_ai_platform.Text.{Text, codes}

abbrev payload : ByteBuffer
payload = 1 ∷ 2 ∷ 3 ∷ []

register_lem_example :
    let (region, r', h') = register payload empty_registry [] in
    (lookup region.key r' ≡ some region)
    × (load region.storage h' ≡ some payload)
    × ((j : Text) → j ≢ region.key → lookup j r' ≡ lookup j empty_registry)
    × (registry_size r' ≡ registry_size empty_registry + 1)
    × IsFresh r'
unfolding empty_registry
register_lem_example = register_lem payload empty_registry [] (omega arith) empty_registry-IsFresh

abbrev pool_config : BufferPoolConfig
pool_config = record { buffers = 2; buffer_size = 4 }

abbrev made : Memory
made = Pool.make pool_config empty_registry []

make-IsSound_example : IsSound made × (available made.pool ≡ 2)
unfolding empty_registry
make-IsSound_example =
    make-IsSound pool_config empty_registry [] (omega arith) empty_registry-IsFresh

made-IsSound : IsSound made
unfolding empty_registry
made-IsSound = (make-IsSound pool_config empty_registry [] (omega arith) empty_registry-IsFresh).0

acquire-Acquired_example : Acquired made (acquire made)
unfolding empty_registry Pool.make Pool.fill Pool.fill_round register_size register
acquire-Acquired_example = acquire-Acquired made (omega arith) made-IsSound

-- The pool with its first buffer out.
abbrev leased : Memory
leased = (acquire made).0

leased-IsSound : IsSound leased
unfolding empty_registry Pool.make Pool.fill Pool.fill_round register_size register
leased-IsSound = (acquire-Acquired made (omega arith) made-IsSound).sound

abbrev key : Text
key = codes "mr-1"

release-IsSound_example :
    IsSound (release key leased).0
    × ((release key leased).1 ≡ true)
    × (available (release key leased).0.pool
        ≡ available leased.pool + (if is_leased key leased then 1 else 0))
    × ((is_leased key leased ≡ true) × Returned key leased (release key leased).0
        ⊎ (is_leased key leased ≡ false) × ((release key leased).0 ≡ leased))
release-IsSound_example = release-IsSound key leased leased-IsSound
