-- ===== src/Rdma/MemoryRegion.antt =====
-- rdma/include/rdma/memory_region.h and rdma/src/memory_region.cpp: regions and their registry.
-- Each method runs under the registry's mutex and is one step. The two access keys of a new
-- region come from two calls that C++ may make in either order; the model makes the left first.
pub mod Registry
use rdma_ai_platform.Assoc.{Assoc, find, emplace, erase}
use rdma_ai_platform.Common.{
  ℕ, ◌+◌, ◌%◌, ◌^◌, ◌++◌, [], Option, none, some, replicate, length, if◌then◌else◌,
}
use rdma_ai_platform.Rdma.Heap.{Heap, alloc, size_at}
use rdma_ai_platform.Rdma.Types.{ByteBuffer, ByteBufferPtr}
use rdma_ai_platform.Text.Decimal.{to_string}
use rdma_ai_platform.Text.{Text, codes}

pub record MemoryRegion : Type 0 where
  pub key : Text
  pub local_key : ℕ
  pub remote_key : ℕ
  pub storage : ByteBufferPtr

unfoldable pub region_size : MemoryRegion → Heap → ℕ
unfolding size_at
region_size r h = size_at r.storage h

pub record MemoryRegistry : Type 0 where
  pub next_region_id : ℕ
  pub next_access_key : ℕ
  pub regions : Assoc MemoryRegion

unfoldable pub empty_registry : MemoryRegistry
empty_registry = record { next_region_id = 0; next_access_key = 1024; regions = [] }

-- `"mr-" + std::to_string(id)`.
unfoldable pub region_key : ℕ → Text
region_key id = codes "mr-" ++ to_string id

unfoldable pub next_key : MemoryRegistry → MemoryRegistry × Text
unfolding region_key
next_key r =
    let id = (r.next_region_id + 1) % 2 ^ 64 in (record r { next_region_id = id }, region_key id)

unfoldable pub next_access_key : MemoryRegistry → MemoryRegistry × ℕ
next_access_key r =
    (record r { next_access_key = (r.next_access_key + 1) % 2 ^ 32 }, r.next_access_key)

-- `Register(ByteBuffer&&)`; the overload for `const ByteBuffer&` copies and calls it.
unfoldable pub register : ByteBuffer → MemoryRegistry → Heap → MemoryRegion × MemoryRegistry × Heap
unfolding next_key next_access_key alloc
register bytes r h =
    let (r1, key) = next_key r in
    let (h', storage) = alloc bytes h in
    let (r2, local) = next_access_key r1 in
    let (r3, remote) = next_access_key r2 in
    let region : MemoryRegion = record {
      key = key;
      local_key = local;
      remote_key = remote;
      storage = storage;
    } in
    (region, record r3 { regions = emplace key region r3.regions }, h')

-- `Register(std::size_t)`: a buffer of zero bytes.
unfoldable pub register_size : ℕ → MemoryRegistry → Heap → MemoryRegion × MemoryRegistry × Heap
register_size bytes = register (replicate bytes 0)

-- `none` is the exception `memory region not found`.
unfoldable pub lookup : Text → MemoryRegistry → Option MemoryRegion
lookup key r = find key r.regions

unfoldable pub release : Text → MemoryRegistry → MemoryRegistry
release key r = record r { regions = erase key r.regions }

unfoldable pub registry_size : MemoryRegistry → ℕ
registry_size r = length r.regions
