-- ===== src/Rdma/BufferPool/Acquire.antt =====
-- `Acquire` of a sound pool.
use rdma_ai_platform.Assoc.{insert, contains, contains-insert}
use rdma_ai_platform.Common.{
  ◌⊎◌, inl, inr, ap, sym, ◌≢◌, refl, false, Option, List, [], ◌∷◌, replicate, length-replicate,
  arith, suc, ◌^◌, ◌<◌, ◌≡◌, ◌∙◌, true, some, ℕ,
}
use rdma_ai_platform.Rdma.BufferPool.Registered.{
  register-unknown, load-fit_other, IsSound, fit-Registered, size_at-fit, register-IsSound_fields,
}
use rdma_ai_platform.Rdma.BufferPool.{Memory, acquire_new, acquire_free, acquire_in, acquire}
use rdma_ai_platform.Rdma.Heap.{load, load-alloc_old, size_at-load, size_at}
use rdma_ai_platform.Rdma.MemoryRegion.Registry.{register-lookup, register-load, register-IsFresh}
use rdma_ai_platform.Rdma.MemoryRegion.{lookup, register_size, MemoryRegion, register}
use rdma_ai_platform.Rdma.Types.{ByteBuffer, ByteBufferPtr}
use rdma_ai_platform.Text.{text_eq_refl, Text}

-- Whose the key was: the first free one, which is off the list then, or, where none was free, one
-- that the pool did not know and now does. So it was out to nobody.
abbrev pub WasFree : Memory → Memory → Text → Type 0
WasFree m m' key =
    ((m.pool.free_keys ≡ key ∷ m'.pool.free_keys) × (m'.pool.known_keys ≡ m.pool.known_keys))
    ⊎ ((m.pool.free_keys ≡ [])
        × (m'.pool.free_keys ≡ [])
        × (contains key m.pool.known_keys ≡ false)
        × (m'.pool.known_keys ≡ insert key m.pool.known_keys))

-- What `Acquire` promises: the region of a key that was out to nobody and is now, with a buffer of
-- the pool's size, and the bytes of every other buffer kept.
pub record Acquired (m : Memory) (result : Memory × Option MemoryRegion) : Type 0 where
  pub region : MemoryRegion
  pub granted : result.1 ≡ some region
  pub sound : IsSound result.0
  pub sized : size_at region.storage result.0.heap ≡ m.pool.config.buffer_size
  pub leased : contains region.key result.0.pool.free_keys ≡ false
  pub known : contains region.key result.0.pool.known_keys ≡ true
  pub was_free : WasFree m result.0 region.key
  pub found : lookup region.key result.0.registry ≡ some region
  pub others :
      (q : ByteBufferPtr) (b : ByteBuffer)
      → q ≢ region.storage
      → load q m.heap ≡ some b
      → load q result.0.heap ≡ some b

pub not-contains-nil : (k : Text) → ¬ (contains k [] ≡ true)
unfolding contains
not-contains-nil k h = cc

acquire_new-Acquired :
    (m : Memory)
    → suc m.registry.next_region_id < 2 ^ 64
    → m.pool.free_keys ≡ []
    → IsSound m
    → Acquired m (acquire_new m)
unfolding acquire_new register_size
acquire_new-Acquired m room e v = record {
  region = (register zeros m.registry m.heap).0;
  granted = refl;
  sound = record {
    fresh = register-IsFresh zeros m.registry m.heap room v.fresh;
    distinct = v.distinct;
    free_known = λ k c. absurd (not-contains-nil k (rw e at c));
    known_registered = register-IsSound_fields zeros m room v;
  };
  sized =
      size_at-load _ _ (register-load zeros m.registry m.heap)
      ∙ length-replicate {A = ℕ} m.pool.config.buffer_size 0;
  leased = rw e (unfold contains in refl);
  known = ground (
    arith,
    contains-insert (register zeros m.registry m.heap).0.key
        (register zeros m.registry m.heap).0.key m.pool.known_keys,
    text_eq_refl (register zeros m.registry m.heap).0.key,
  );
  was_free = inr (e, e, register-unknown zeros m room v, refl);
  found = register-lookup zeros m.registry m.heap room v.fresh;
  others = λ q b ne there. unfold register in load-alloc_old zeros m.heap q there;
}
  where
    zeros : ByteBuffer
    zeros = replicate m.pool.config.buffer_size 0

contains_head : (k : Text) (ks : List Text) → contains k (k ∷ ks) ≡ true
unfolding contains
contains_head k ks = rw (text_eq_refl k)

contains_tail : (j k : Text) (ks : List Text) → contains j ks ≡ true → contains j (k ∷ ks) ≡ true
unfolding contains
contains_tail j k ks h = ground arith

acquire_free-Acquired :
    (key : Text) (rest : List Text) (m : Memory)
    → m.pool.free_keys ≡ key ∷ rest
    → IsSound m
    → Acquired m (acquire_free key rest m)
unfolding acquire_free
acquire_free-Acquired key rest m e v =
    let (region, bytes, found, loaded, named) =
      v.known_registered key (v.free_known key (rw e (contains_head key rest))) in
    rw (found, acquire_free)
      (record {
        region = region;
        granted = refl;
        sound = record {
          fresh = v.fresh;
          distinct = (rw e at v.distinct).1;
          free_known = λ k c. v.free_known k (rw e (contains_tail k key rest c));
          known_registered = λ k c.
              fit-Registered k m.pool.config.buffer_size region m.registry m.heap
                (v.known_registered k c);
        };
        sized = size_at-fit m.pool.config.buffer_size region m.heap loaded;
        leased = rw named (rw e at v.distinct).0;
        known = rw named (v.free_known key (rw e (contains_head key rest)));
        was_free = inl (e ∙ ap (λ k. k ∷ rest) (sym named), refl);
        found = ap (λ k. lookup k m.registry) named ∙ found;
        others =
            λ q b ne there. load-fit_other q m.pool.config.buffer_size region m.heap ne ∙ there;
      })

acquire_in-Acquired :
    (keys : List Text) (m : Memory)
    → suc m.registry.next_region_id < 2 ^ 64
    → m.pool.free_keys ≡ keys
    → IsSound m
    → Acquired m (acquire_in keys m)
unfolding acquire_in
acquire_in-Acquired [] m room e v = acquire_new-Acquired m room e v
acquire_in-Acquired (key ∷ rest) m room e v = acquire_free-Acquired key rest m e v

-- On a sound pool with an identifier left, `Acquire` throws nothing and the pool stays sound. It
-- hands out the region that the registry has under its key, with a buffer of the pool's size, and
-- no other buffer changes. The key is the first free one, which is then off the list, or, where
-- none is free, one that the pool did not know before and now does: never one that is out already.
pub acquire-Acquired :
    (m : Memory) → suc m.registry.next_region_id < 2 ^ 64 → IsSound m → Acquired m (acquire m)
unfolding acquire
acquire-Acquired m room v = acquire_in-Acquired m.pool.free_keys m room refl v
