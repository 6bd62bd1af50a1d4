-- ===== src/Rdma/BufferPool/Registered.antt =====
-- A pool with its registry: every known key has a region and a buffer, and no key is free twice.
use rdma_ai_platform.Assoc.{contains, insert, contains-insert, IsDistinct}
use rdma_ai_platform.Common.{
  sym, false, refl, ==_iff, subst, inl, inr, arith, ◌==◌, Bool-cases, Option-cases, suc, ◌^◌, ◌<◌,
  ◌≡◌, ◌∙◌, ◌≢◌, true, some, ℕ,
}
use rdma_ai_platform.Rdma.BufferPool.{Memory, fit}
use rdma_ai_platform.Rdma.Heap.{
  Heap, load, size_at, resize_at, load-alloc_old, load-resize_at, load-resize_at_other,
  size_at-resize_at,
}
use rdma_ai_platform.Rdma.MemoryRegion.Registry.{
  IsFresh, register-unused, register-lookup, register-load, register-lookup_other,
}
use rdma_ai_platform.Rdma.MemoryRegion.{MemoryRegion, MemoryRegistry, register, lookup}
use rdma_ai_platform.Rdma.Types.{ByteBufferPtr, ByteBuffer}
use rdma_ai_platform.Text.{Text, text_eq, text_eq_iff}

-- A key with a region of that key and a buffer behind it.
abbrev pub Registered : Text → MemoryRegistry → Heap → Type 0
Registered k r h =
    (region : MemoryRegion) × (bytes : ByteBuffer) × (lookup k r ≡ some region)
    × (load region.storage h ≡ some bytes)
    × (region.key ≡ k)

pub record IsSound (m : Memory) : Type 0 where
  pub fresh : IsFresh m.registry
  pub distinct : IsDistinct m.pool.free_keys
  pub free_known :
      (k : Text) → contains k m.pool.free_keys ≡ true → contains k m.pool.known_keys ≡ true
  pub known_registered :
      (k : Text) → contains k m.pool.known_keys ≡ true → Registered k m.registry m.heap

module _ (bytes : ByteBuffer) (r : MemoryRegistry) (h : Heap) (room : suc r.next_region_id < 2 ^ 64)
    (f : IsFresh r) where
  -- Registering keeps what is registered.
  register-Registered_old :
      (k : Text) → Registered k r h → Registered k (register bytes r h).1 (register bytes r h).2
  unfolding lookup
  register-Registered_old k (region, b, found, loaded, named) =
      (region, b, register-lookup_other bytes r h room k other ∙ found, load-register, named)
    where
      other : k ≢ (register bytes r h).0.key
      other same = cc (register-unused bytes r h room f, found, same)

      load-register : load region.storage (register bytes r h).2 ≡ some b
      load-register = unfold register in load-alloc_old bytes h region.storage loaded

  register-Registered_new :
      Registered (register bytes r h).0.key (register bytes r h).1 (register bytes r h).2
  register-Registered_new = (
    (register bytes r h).0,
    bytes,
    register-lookup bytes r h room f,
    register-load bytes r h,
    refl,
  )

-- A resize of one buffer keeps what is registered.
pub resize_at-Registered :
    (k : Text) (q : ByteBufferPtr) (n : ℕ) (r : MemoryRegistry) (h : Heap)
    → Registered k r h
    → Registered k r (resize_at q n h)
resize_at-Registered k q n r h (region, b, found, loaded, named) =
    let (b', still) = load-resize_at region.storage q n h loaded in
    (region, b', found, still, named)

pub fit-Registered :
    (k : Text) (n : ℕ) (region : MemoryRegion) (r : MemoryRegistry) (h : Heap)
    → Registered k r h
    → Registered k r (fit n region h)
unfolding fit
fit-Registered k n region r h reg = elim (Option-cases region.storage) [
  | inl e ↦ rw (e, fit) reg
  | inr (i, e) ↦ elim (Bool-cases (size_at (some i) h == n)) [
    | inl same ↦ rw (e, fit) (rw same reg)
    | inr other ↦ rw (e, fit) (rw other (resize_at-Registered k (some i) n r h reg))
  ]
]

-- Another buffer is not touched.
pub load-fit_other :
    (q : ByteBufferPtr) (n : ℕ) (region : MemoryRegion) (h : Heap)
    → q ≢ region.storage
    → load q (fit n region h) ≡ load q h
unfolding fit
load-fit_other q n region h ne = elim (Option-cases region.storage) [
  | inl e ↦ rw (e, fit) refl
  | inr (i, e) ↦ elim (Bool-cases (size_at (some i) h == n)) [
    | inl same ↦ rw (e, fit) (rw same refl)
    | inr other ↦ rw (e, fit) (rw other (load-resize_at_other q (some i) n h (λ d. ne (d ∙ sym e))))
  ]
]

-- A key that is registered next is none that the pool knows.
pub register-unknown :
    (bytes : ByteBuffer) (m : Memory)
    → suc m.registry.next_region_id < 2 ^ 64
    → IsSound m
    → contains (register bytes m.registry m.heap).0.key m.pool.known_keys ≡ false
unfolding lookup
register-unknown bytes m room v =
    elim (Bool-cases (contains (register bytes m.registry m.heap).0.key m.pool.known_keys)) [
      | inl known ↦
          let (region, b, found, loaded, named) = v.known_registered _ known in
          cc (register-unused bytes m.registry m.heap room v.fresh, found)
      | inr unknown ↦ unknown
    ]

-- The buffer then has the size asked for.
pub size_at-fit :
    (n : ℕ) (region : MemoryRegion) (h : Heap) {b : ByteBuffer}
    → load region.storage h ≡ some b
    → size_at region.storage (fit n region h) ≡ n
unfolding fit
size_at-fit n region h e = elim (Option-cases region.storage) [
  | inl null ↦ unfold load in cc
  | inr (i, at) ↦ elim (Bool-cases (size_at (some i) h == n)) [
    | inl same ↦ rw (at, fit) (rw same ((==_iff _ n).0 same))
    | inr other ↦ rw (at, fit) (rw other (size_at-resize_at (some i) n h (rw at at e)))
  ]
]

pub register-IsSound_fields :
    (bytes : ByteBuffer) (m : Memory)
    → suc m.registry.next_region_id < 2 ^ 64
    → IsSound m
    → let (region, registry, heap) = register bytes m.registry m.heap in
      (k : Text)
      → contains k (insert region.key m.pool.known_keys) ≡ true
      → Registered k registry heap
register-IsSound_fields bytes m room v k c = elim (Bool-cases (text_eq new k)) [
  | inl same ↦
      subst
        (λ j.
          Registered j (register bytes m.registry m.heap).1 (register bytes m.registry m.heap).2)
        ((text_eq_iff new k).0 same) (register-Registered_new bytes m.registry m.heap room v.fresh)
  | inr other ↦
      register-Registered_old bytes m.registry m.heap room v.fresh k
        (v.known_registered k (ground (arith, contains-insert new k m.pool.known_keys)))
]
  where
    new : Text
    new = (register bytes m.registry m.heap).0.key
