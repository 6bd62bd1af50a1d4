-- ===== src/Prototype/Tensor.antt =====
-- worker/model/tensor.h and worker/model/tensor.cpp. A `float` is its pattern of 32 bits, laid out
-- with the low byte first, as on the machines the program is built for. The arithmetic on floats is
-- the machine's: a record that `fill_ramp` takes. A resize that has no memory is not modelled.
pub mod Bytes
use rdma_ai_platform.Common.{ℕ, ◌+◌, ◌*◌, ◌/◌, ◌%◌, ◌^◌, List, [], ◌∷◌, ◌++◌, length, replicate}
use rdma_ai_platform.Rdma.Types.{ByteBuffer}
use rdma_ai_platform.Text.Decimal.{to_string}
use rdma_ai_platform.Text.{Text, codes}

pub record FloatOps : Type 0 where
  pub of_size : ℕ → ℕ
  pub multiply : ℕ → ℕ → ℕ
  pub add : ℕ → ℕ → ℕ

pub record Tensor : Type 0 where
  pub name : Text
  pub shape : List ℕ
  pub values : List ℕ

-- `Tensor() = default`.
unfoldable pub empty_tensor : Tensor
empty_tensor = record { name = []; shape = []; values = [] }

-- `std::accumulate` from `acc`.
unfoldable pub product_from : ℕ → List ℕ → ℕ
product_from acc [] = acc
product_from acc (n ∷ ns) = product_from (acc * n % 2 ^ 64) ns

unfoldable pub count_of : List ℕ → ℕ
unfolding product_from
count_of [] = 1
count_of (n ∷ ns) = product_from 1 (n ∷ ns)

unfoldable pub element_count : Tensor → ℕ
unfolding count_of
element_count t = count_of t.shape

-- The constructor with a name and a shape.
unfoldable pub make : Text → List ℕ → Tensor
unfolding count_of
make name shape = record { name = name; shape = shape; values = replicate (count_of shape) 0 }

-- The loop of `FillRamp`, from element `i` on.
unfoldable pub ramp_from : FloatOps → ℕ → ℕ → ℕ → List ℕ → List ℕ
ramp_from ops start step i [] = []
ramp_from ops start step i (x ∷ xs) =
    ops.add start (ops.multiply (ops.of_size i) step) ∷ ramp_from ops start step (i + 1) xs

unfoldable pub fill_ramp : FloatOps → ℕ → ℕ → Tensor → Tensor
unfolding ramp_from
fill_ramp ops start step t = record t { values = ramp_from ops start step 0 t.values }

unfoldable pub byte_size : Tensor → ℕ
byte_size t = length t.values * 4 % 2 ^ 64

-- The bytes of a float in memory.
unfoldable pub float_bytes : ℕ → ByteBuffer
float_bytes x = x % 256 ∷ x / 256 % 256 ∷ x / 65536 % 256 ∷ x / 16777216 % 256 ∷ []

unfoldable pub bytes_of : List ℕ → ByteBuffer
unfolding float_bytes
bytes_of [] = []
bytes_of (x ∷ xs) = float_bytes x ++ bytes_of xs

unfoldable pub serialize : Tensor → ByteBuffer
unfolding bytes_of
serialize t = bytes_of t.values

-- The loop of `Summary`, behind the first dimension.
unfoldable pub more_dimensions : List ℕ → Text
more_dimensions [] = []
more_dimensions (n ∷ ns) = codes "x" ++ (to_string n ++ more_dimensions ns)

unfoldable pub dimensions : List ℕ → Text
unfolding more_dimensions
dimensions [] = []
dimensions (n ∷ ns) = to_string n ++ more_dimensions ns

unfoldable pub summary : Tensor → Text
unfolding dimensions byte_size
summary t =
    t.name ++ (codes "[" ++ (dimensions t.shape ++ (codes "] bytes=" ++ to_string (byte_size t))))
