-- ===== src/Rdma/BufferPool/Release.antt =====
-- `Release` of a sound pool, and a pool as it is made.
use rdma_ai_platform.Assoc.{contains, contains-concat, concat-IsDistinct}
use rdma_ai_platform.Common.{
  Bool, some, ◌≢◌, ◌+◌, ◌⊎◌, inl, inr, not, ◌&&◌, List, length-append, if◌then◌else◌, Bool-cases,
  ◌≡◌, refl, true, false, [], ◌∷◌, ◌++◌, arith,
}
use rdma_ai_platform.Rdma.BufferPool.Registered.{IsSound, resize_at-Registered}
use rdma_ai_platform.Rdma.BufferPool.{Memory, put_back, release, available}
use rdma_ai_platform.Rdma.Heap.{load, size_at, size_at-resize_at, load-resize_at_other}
use rdma_ai_platform.Rdma.MemoryRegion.{MemoryRegion, lookup}
use rdma_ai_platform.Rdma.Types.{ByteBufferPtr}
use rdma_ai_platform.Text.{Text, text_eq_iff, text_eq_refl}

-- A key that the pool knows and does not keep free comes back to the end of the free list.
put_back-lookup :
    (key : Text) (m : Memory)
    → IsSound m
    → contains key m.pool.known_keys ≡ true
    → ((put_back key m).1 ≡ true)
      × ((put_back key m).0.pool.free_keys ≡ m.pool.free_keys ++ key ∷ [])
unfolding put_back
put_back-lookup key m v known =
    let (region, bytes, found, loaded, named) = v.known_registered key known in
    rw (found, put_back) (refl, refl)

put_back-IsSound :
    (key : Text) (m : Memory)
    → IsSound m
    → contains key m.pool.known_keys ≡ true
    → contains key m.pool.free_keys ≡ false
    → IsSound (put_back key m).0
unfolding put_back
put_back-IsSound key m v known out =
    let (region, bytes, found, loaded, named) = v.known_registered key known in
    rw (found, put_back)
      (record {
        fresh = v.fresh;
        distinct = concat-IsDistinct key m.pool.free_keys out v.distinct;
        free_known = λ k c.
            ground
              (arith, contains-concat key k m.pool.free_keys, text_eq_iff key k, v.free_known k);
        known_registered = λ k c.
            resize_at-Registered k region.storage m.pool.config.buffer_size m.registry m.heap
              (v.known_registered k c);
      })

-- The three ways through `Release`.
abbrev Outcomes : Text → Memory → Type 0
Outcomes key m =
    ((contains key m.pool.known_keys ≡ false) × (release key m ≡ (m, true)))
    ⊎ ((contains key m.pool.known_keys ≡ true)
        × (contains key m.pool.free_keys ≡ true)
        × (release key m ≡ (m, true)))
    ⊎ ((contains key m.pool.known_keys ≡ true)
        × (contains key m.pool.free_keys ≡ false)
        × (release key m ≡ put_back key m))

release_cases : (key : Text) (m : Memory) → Outcomes key m
unfolding release
release_cases key m = elim (Bool-cases (contains key m.pool.known_keys)) [
  | inr unknown ↦ inl (unknown, rw unknown refl)
  | inl known ↦ elim (Bool-cases (contains key m.pool.free_keys)) [
    | inl free ↦ inr (inl (known, free, rw (known, free) refl))
    | inr out ↦ inr (inr (known, out, rw (known, out) refl))
  ]
]

-- Whether a key is out: the pool knows it and does not keep it free.
abbrev pub is_leased : Text → Memory → Bool
is_leased key m = contains key m.pool.known_keys && not (contains key m.pool.free_keys)

-- What a release of a key that is out changes: the key stands at the end of the free list, its
-- buffer has the pool's size, and all else is as it was: the rest of the pool, the registry, and
-- the bytes of every other buffer.
pub record Returned (key : Text) (m m' : Memory) : Type 0 where
  pub free : m'.pool.free_keys ≡ m.pool.free_keys ++ key ∷ []
  pub known : m'.pool.known_keys ≡ m.pool.known_keys
  pub config : m'.pool.config ≡ m.pool.config
  pub registry : m'.registry ≡ m.registry
  pub region : MemoryRegion
  pub found : lookup key m.registry ≡ some region
  pub sized : size_at region.storage m'.heap ≡ m.pool.config.buffer_size
  pub others : (q : ByteBufferPtr) → q ≢ region.storage → load q m'.heap ≡ load q m.heap

put_back-Returned :
    (key : Text) (m : Memory)
    → IsSound m
    → contains key m.pool.known_keys ≡ true
    → Returned key m (put_back key m).0
unfolding put_back
put_back-Returned key m v known =
    let (region, bytes, found, loaded, named) = v.known_registered key known in
    rw (found, put_back)
      (record {
        free = refl;
        known = refl;
        config = refl;
        registry = refl;
        region = region;
        found = found;
        sized = size_at-resize_at region.storage m.pool.config.buffer_size m.heap loaded;
        others = λ q ne. load-resize_at_other q region.storage m.pool.config.buffer_size m.heap ne;
      })

-- `Release` throws nothing on a sound pool and leaves it sound. A key that is out, which the pool
-- knows and does not keep free, comes back to the end of the free list with its buffer of the
-- pool's size, and no other buffer, key or region changes; the release of any other key changes
-- nothing at all.
pub release-IsSound :
    (key : Text) (m : Memory)
    → IsSound m
    → IsSound (release key m).0
      × ((release key m).1 ≡ true)
      × (available (release key m).0.pool ≡ available m.pool + (if is_leased key m then 1 else 0))
      × ((is_leased key m ≡ true) × Returned key m (release key m).0
          ⊎ (is_leased key m ≡ false) × ((release key m).0 ≡ m))
unfolding available
release-IsSound key m v = elim (release_cases key m) [
  | inl (unknown, e) ↦ rw (e, unknown) (v, refl, omega arith, inr (refl, refl))
  | inr (inl (known, free, e)) ↦ rw (e, known, free) (v, refl, omega arith, inr (refl, refl))
  | inr (inr (known, out, e)) ↦
      let (done, keys) = put_back-lookup key m v known in
      rw (e, known, out)
        (
          put_back-IsSound key m v known out,
          done,
          rw keys (length-append m.pool.free_keys (key ∷ [])),
          inl (refl, put_back-Returned key m v known),
        )
]

contains_concat_self : (key : Text) (ks : List Text) → contains key (ks ++ key ∷ []) ≡ true
contains_concat_self key ks = ground (arith, contains-concat key key ks, text_eq_refl key)

release_free :
    (key : Text) (m : Memory) → contains key m.pool.free_keys ≡ true → release key m ≡ (m, true)
unfolding release
release_free key m free = ground (arith)

release_unknown :
    (key : Text) (m : Memory) → contains key m.pool.known_keys ≡ false → release key m ≡ (m, true)
unfolding release
release_unknown key m h = rw h refl

-- A second `Release` of a key changes nothing, so no key is ever free twice.
pub release_twice :
    (key : Text) (m : Memory)
    → IsSound m
    → release key (release key m).0 ≡ ((release key m).0, true)
release_twice key m v = elim (release_cases key m) [
  | inl (unknown, e) ↦ rw e (release_unknown key m unknown)
  | inr (inl (known, free, e)) ↦ rw e (release_free key m free)
  | inr (inr (known, out, e)) ↦ rw e (
      release_free key (put_back key m).0
        (rw ((put_back-lookup key m v known).1) (contains_concat_self key m.pool.free_keys)))
]
