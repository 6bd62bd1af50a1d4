-- ===== src/Rdma/MemoryRegion/Registry.antt =====
-- Region keys are fresh, so registering hides no region and shares no buffer.
use rdma_ai_platform.Assoc.{find, find-emplace, find-emplace_new, find-erase, length-emplace}
use rdma_ai_platform.Common.{
  if◌then◌else◌, ◌∙◌, ◌+◌, ◌%◌, ◌^◌, ◌<◌, ◌≡◌, refl, ap, ◌≢◌, none, some, arith, ℕ, suc,
}
use rdma_ai_platform.Rdma.Heap.{Heap, load, load-alloc}
use rdma_ai_platform.Rdma.MemoryRegion.{
  MemoryRegistry, region_key, register, lookup, release, registry_size, empty_registry,
}
use rdma_ai_platform.Rdma.Types.{ByteBuffer}
use rdma_ai_platform.Text.Decimal.{to_string_inj}
use rdma_ai_platform.Text.{Text, text_eq, text_eq_iff}

-- Two identifiers give two keys.
pub region_key_inj : (m n : ℕ) → region_key m ≡ region_key n → m ≡ n
unfolding region_key
region_key_inj m n e = to_string_inj m n (cc)

-- No region has a key that is still to be given out.
pub record IsFresh (r : MemoryRegistry) : Type 0 where
  pub unused : (k : ℕ) → r.next_region_id < k → find (region_key k) r.regions ≡ none

pub empty_registry-IsFresh : IsFresh empty_registry
unfolding empty_registry find
empty_registry-IsFresh = record { unused = λ k h. refl }

pub register-load :
    (bytes : ByteBuffer) (r : MemoryRegistry) (h : Heap)
    → load (register bytes r h).0.storage (register bytes r h).2 ≡ some bytes
unfolding register
register-load bytes r h = load-alloc bytes h

module _ (bytes : ByteBuffer) (r : MemoryRegistry) (h : Heap)
    (room : suc r.next_region_id < 2 ^ 64) where
  abbrev new_id : ℕ
  new_id = (r.next_region_id + 1) % 2 ^ 64

  new_id_lem : new_id ≡ suc r.next_region_id
  new_id_lem = omega arith

  pub register-key : (register bytes r h).0.key ≡ region_key (suc r.next_region_id)
  unfolding register
  register-key = ap region_key new_id_lem

  pub register-unused : IsFresh r → find (register bytes r h).0.key r.regions ≡ none
  register-unused f = rw register-key (f.unused _ (omega arith))

  -- The region is found under its key, with the bytes given.
  pub register-lookup :
      IsFresh r
      → lookup (register bytes r h).0.key (register bytes r h).1 ≡ some (register bytes r h).0
  unfolding register lookup
  register-lookup f = find-emplace_new _ _ r.regions (register-unused f)

  -- Every other key is looked up as before.
  pub register-lookup_other :
      (j : Text) → j ≢ (register bytes r h).0.key → lookup j (register bytes r h).1 ≡ lookup j r
  unfolding register lookup
  register-lookup_other j ne = ground (
    arith,
    find-emplace (register bytes r h).0.key j (register bytes r h).0 r.regions,
    text_eq_iff (register bytes r h).0.key j,
  )

  pub register-size : IsFresh r → registry_size (register bytes r h).1 ≡ registry_size r + 1
  unfolding register registry_size
  register-size f = length-emplace _ _ r.regions (register-unused f)

  pub register-next_region_id : (register bytes r h).1.next_region_id ≡ suc r.next_region_id
  unfolding register
  register-next_region_id = new_id_lem

  pub register-unused_later :
      (k : ℕ)
      → suc r.next_region_id < k
      → find (region_key k) r.regions ≡ none
      → find (region_key k) (register bytes r h).1.regions ≡ none
  unfolding lookup
  register-unused_later k lt e = register-lookup_other (region_key k) other ∙ e
    where
      other : region_key k ≢ (register bytes r h).0.key
      other same = absurd (omega (arith, region_key_inj k _ (same ∙ register-key)))

  pub register-IsFresh : IsFresh r → IsFresh (register bytes r h).1
  register-IsFresh f = record {
    unused =
        rw register-next_region_id (λ k lt. register-unused_later k lt (f.unused k (omega arith)));
  }

-- A registered region is found under its key with the bytes given, every other key is looked up as
-- before, the registry is larger by one, and its next keys are still unused.
pub register_lem :
    (bytes : ByteBuffer) (r : MemoryRegistry) (h : Heap)
    → suc r.next_region_id < 2 ^ 64
    → IsFresh r
    → let (region, r', h') = register bytes r h in
      (lookup region.key r' ≡ some region)
      × (load region.storage h' ≡ some bytes)
      × ((j : Text) → j ≢ region.key → lookup j r' ≡ lookup j r)
      × (registry_size r' ≡ registry_size r + 1)
      × IsFresh r'
register_lem bytes r h room f = (
  register-lookup bytes r h room f,
  register-load bytes r h,
  register-lookup_other bytes r h room,
  register-size bytes r h room f,
  register-IsFresh bytes r h room f,
)

-- A released key is looked up in vain, and every other key as before.
pub lookup-release :
    (k j : Text) (r : MemoryRegistry)
    → lookup j (release k r) ≡ (if text_eq k j then none else lookup j r)
unfolding lookup release
lookup-release k j r = find-erase k j r.regions
