-- ===== src/Rdma/Heap.antt =====
-- The buffers that `std::shared_ptr<ByteBuffer>` values share. A pointer is null or the number of
-- a buffer; no buffer is freed, since one may not be seen after its last pointer is gone.
use rdma_ai_platform.Common.{
  ◌≢◌, refl, ap, sym, ℕ_discrete, inl, inr, Option-cases, get_elem?-set_ne, zero,
  get_elem?-set_self, length-replicate, ◌∙◌, get_elem?-lt, ℕ, suc, ◌-◌, ◌≡◌, List, [], ◌∷◌, ◌++◌,
  Option, none, some, get_elem?, set, take, replicate, length, get_elem?-concat_length,
  get_elem?-append_left, arith,
}
use rdma_ai_platform.Rdma.Types.{ByteBuffer, ByteBufferPtr}

abbrev pub Heap : Type 0
Heap = List ByteBuffer

-- `std::make_shared<ByteBuffer>(...)`.
unfoldable pub alloc : ByteBuffer → Heap → Heap × ByteBufferPtr
alloc bytes h = (h ++ bytes ∷ [], some (length h))

-- `*pointer`, where it is not null.
unfoldable pub load : ByteBufferPtr → Heap → Option ByteBuffer
load none h = none
load (some i) h = get_elem? h i

-- `pointer == nullptr ? 0U : pointer->size()`.
unfoldable pub size_at : ByteBufferPtr → Heap → ℕ
unfolding load
size_at p h = elim (load p h) [ none ↦ 0 | some bytes ↦ length bytes ]

-- `resize`: cut off, or filled up with zero bytes.
unfoldable pub resize : ℕ → ByteBuffer → ByteBuffer
resize n bytes = take n bytes ++ replicate (n - length bytes) 0

-- `pointer->resize(n)`, where it is not null.
unfoldable pub resize_at : ByteBufferPtr → ℕ → Heap → Heap
unfolding load
resize_at none n h = h
resize_at (some i) n h = elim (load (some i) h) [ none ↦ h | some bytes ↦ set h i (resize n bytes) ]

pub load-alloc :
    (bytes : ByteBuffer) (h : Heap) → load (alloc bytes h).1 (alloc bytes h).0 ≡ some bytes
unfolding load alloc
load-alloc bytes h = get_elem?-concat_length h bytes

-- A buffer that was there is not touched.
pub load-alloc_old :
    (bytes : ByteBuffer) (h : Heap) (p : ByteBufferPtr) {b : ByteBuffer}
    → load p h ≡ some b
    → load p (alloc bytes h).0 ≡ some b
unfolding load alloc
load-alloc_old bytes h none e = e
load-alloc_old bytes h (some i) e = get_elem?-append_left h (bytes ∷ []) i (get_elem?-lt h i e) ∙ e

pub length-resize : (n : ℕ) (bytes : ByteBuffer) → length (resize n bytes) ≡ n
unfolding resize
length-resize zero bytes = ground (arith, length-replicate {A = ℕ} (0 - length bytes) 0)
length-resize (suc n) [] = length-replicate {A = ℕ} (suc n - 0) 0 ∙ omega arith
length-resize (suc n) (b ∷ bytes) = ground (arith, length-resize n bytes)

pub size_at-resize_at :
    (p : ByteBufferPtr) (n : ℕ) (h : Heap) {b : ByteBuffer}
    → load p h ≡ some b
    → size_at p (resize_at p n h) ≡ n
unfolding size_at resize_at load
size_at-resize_at none n h e = cc
size_at-resize_at (some i) n h {b} e =
    ground (arith, get_elem?-set_self h i (resize n b) (get_elem?-lt h i e), length-resize n b)

-- A resize keeps every pointer good.
pub load-resize_at :
    (p q : ByteBufferPtr) (n : ℕ) (h : Heap) {b : ByteBuffer}
    → load p h ≡ some b
    → (b' : ByteBuffer) × (load p (resize_at q n h) ≡ some b')
unfolding load resize_at
load-resize_at p none n h {b} e = (b, e)
load-resize_at none (some j) n h e = cc
load-resize_at (some i) (some j) n h {b} e = elim (Option-cases (get_elem? h j)) [
  | inl absent ↦ (b, ground arith)
  | inr (c, found) ↦ elim (ℕ_discrete j i) [
    | yes same ↦
        (resize n c, ground (arith, get_elem?-set_self h j (resize n c) (get_elem?-lt h j found)))
    | no other ↦ (b, ground (arith, get_elem?-set_ne h j i (resize n c) other))
  ]
]

-- Nor does it touch another buffer.
pub load-resize_at_other :
    (p q : ByteBufferPtr) (n : ℕ) (h : Heap) → p ≢ q → load p (resize_at q n h) ≡ load p h
unfolding load resize_at
load-resize_at_other p none n h ne = refl
load-resize_at_other none (some j) n h ne = refl
load-resize_at_other (some i) (some j) n h ne = elim (Option-cases (get_elem? h j)) [
  | inl absent ↦ ground arith
  | inr (c, found) ↦ ground (arith, get_elem?-set_ne h j i (resize n c) (λ e. ne (ap some (sym e))))
]

pub size_at-load :
    (p : ByteBufferPtr) (h : Heap) {b : ByteBuffer} → load p h ≡ some b → size_at p h ≡ length b
unfolding size_at
size_at-load p h e = rw (e, size_at)
