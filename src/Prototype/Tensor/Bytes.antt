-- ===== src/Prototype/Tensor/Bytes.antt =====
-- The bytes of a tensor: as many as it says, and the values are read back from them.
use rdma_ai_platform.Common.{
  zero, ◌∙◌, some, get_elem?, replicate, length-replicate, ℕ, suc, ◌+◌, ◌*◌, ◌/◌, ◌%◌, ◌^◌, ◌<◌,
  ◌≡◌, refl, ap, List, [], ◌∷◌, arith, length, All,
}
use rdma_ai_platform.Prototype.Tensor.{
  Text, Tensor, FloatOps, make, fill_ramp, ramp_from, byte_size, bytes_of, float_bytes, serialize,
  element_count, count_of,
}
use rdma_ai_platform.Rdma.Types.{ByteBuffer}

-- The floats that bytes hold; fewer than four at the end hold none.
abbrev pub floats_of : ByteBuffer → List ℕ
floats_of (a ∷ b ∷ c ∷ d ∷ rest) = (a + 256 * b + 65536 * c + 16777216 * d) ∷ floats_of rest
floats_of _ = []

abbrev pub IsFloat : ℕ → Type 0
IsFloat x = x < 2 ^ 32

float_bytes_lem :
    (x : ℕ)
    → x < 2 ^ 32
    → x % 256 + 256 * (x / 256 % 256) + 65536 * (x / 65536 % 256) + 16777216 * (x / 16777216 % 256)
      ≡ x
float_bytes_lem x h = omega arith

floats_of-bytes_of : (xs : List ℕ) → All IsFloat xs → floats_of (bytes_of xs) ≡ xs
unfolding bytes_of float_bytes
floats_of-bytes_of [] h = refl
floats_of-bytes_of (x ∷ xs) h = ground (arith, float_bytes_lem x h.0, floats_of-bytes_of xs h.1)

length-bytes_of : (xs : List ℕ) → length (bytes_of xs) ≡ length xs * 4
unfolding bytes_of float_bytes
length-bytes_of [] = refl
length-bytes_of (x ∷ xs) = omega (arith, length-bytes_of xs)

length-ramp_from :
    (ops : FloatOps) (start step i : ℕ) (xs : List ℕ)
    → length (ramp_from ops start step i xs) ≡ length xs
unfolding ramp_from
length-ramp_from ops start step i [] = refl
length-ramp_from ops start step i (x ∷ xs) = ap suc (length-ramp_from ops start step (i + 1) xs)

get_elem?-ramp_from :
    (ops : FloatOps) (start step i : ℕ) (xs : List ℕ) (j : ℕ)
    → j < length xs
    → get_elem? (ramp_from ops start step i xs) j
      ≡ some (ops.add start (ops.multiply (ops.of_size (i + j)) step))
unfolding ramp_from
get_elem?-ramp_from ops start step i [] j h = elim h [ ]
get_elem?-ramp_from ops start step i (x ∷ xs) zero h = let e : i + 0 ≡ i = omega arith in rw e
get_elem?-ramp_from ops start step i (x ∷ xs) (suc j) h =
    let e : i + 1 + j ≡ i + suc j = omega arith in
    get_elem?-ramp_from ops start step (i + 1) xs j (omega arith)
    ∙ ap (λ k. some (ops.add start (ops.multiply (ops.of_size k) step))) e

ramp_from-IsFloat :
    (ops : FloatOps) (start step i : ℕ) (xs : List ℕ)
    → ((a b : ℕ) → IsFloat (ops.add a b))
    → All IsFloat (ramp_from ops start step i xs)
unfolding ramp_from
ramp_from-IsFloat ops start step i [] h = tt
ramp_from-IsFloat ops start step i (x ∷ xs) h =
    (h start (ops.multiply (ops.of_size i) step), ramp_from-IsFloat ops start step (i + 1) xs h)

-- A tensor's bytes are `ByteSize` many where that fits 64 bits, and its values are read back from
-- them, four bytes each.
pub floats_of-serialize :
    (t : Tensor)
    → All IsFloat t.values
    → length t.values * 4 < 2 ^ 64
    → (floats_of (serialize t) ≡ t.values) × (length (serialize t) ≡ byte_size t)
unfolding serialize byte_size
floats_of-serialize t floats fits =
    (floats_of-bytes_of t.values floats, omega (arith, length-bytes_of t.values))

-- The bytes of a tensor of a shape, filled with a ramp, where a sum of floats is a float of 32 bits
-- and the bytes are fewer than 2 ^ 64: they are four for each of the shape's elements, and the
-- float read from them at the place `i` of an element is `start + float(i) * step`.
pub serialize-fill_ramp :
    (ops : FloatOps) (name : Text) (shape : List ℕ) (start step i : ℕ)
    → ((a b : ℕ) → IsFloat (ops.add a b))
    → count_of shape * 4 < 2 ^ 64
    → i < count_of shape
    → let t = fill_ramp ops start step (make name shape) in
      (length (serialize t) ≡ element_count t * 4)
      × (get_elem? (floats_of (serialize t)) i
          ≡ some (ops.add start (ops.multiply (ops.of_size i) step)))
unfolding fill_ramp make element_count byte_size
serialize-fill_ramp ops name shape start step i floats fits within =
    let zeros : List ℕ = replicate (count_of shape) 0 in
    let t : Tensor = fill_ramp ops start step (make name shape) in
    let many : length t.values ≡ count_of shape =
      length-ramp_from ops start step 0 zeros ∙ length-replicate {A = ℕ} (count_of shape) 0 in
    let (values, bytes) =
      floats_of-serialize t (ramp_from-IsFloat ops start step 0 zeros floats)
        (omega (arith, many)) in
    let same : 0 + i ≡ i = omega arith in
    (
      omega (arith, bytes, many),
      ap (λ l. get_elem? l i) values
          ∙ get_elem?-ramp_from ops start step 0 zeros i
              (omega (arith, length-replicate {A = ℕ} (count_of shape) 0))
          ∙ ap (λ k. some (ops.add start (ops.multiply (ops.of_size k) step))) same,
    )
