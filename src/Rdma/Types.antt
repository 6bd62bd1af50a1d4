-- ===== src/Rdma/Types.antt =====
-- rdma/include/rdma/types.h: the enumerations and their names, byte buffers and strings.
-- A time point is the clock's reading, a number.
use rdma_ai_platform.Common.{ℕ, ◌≡◌, refl, Option, List, [], ◌∷◌, ◌%◌, ◌<◌, All, arith}
use rdma_ai_platform.Text.{Text, codes}

abbrev pub ByteBuffer : Type 0
ByteBuffer = List ℕ

-- `ByteBufferPtr`: a null pointer, or the number of a buffer on the heap.
abbrev pub ByteBufferPtr : Type 0
ByteBufferPtr = Option ℕ

abbrev pub WorkRequestId : Type 0
WorkRequestId = ℕ

abbrev pub TimePoint : Type 0
TimePoint = ℕ

pub data CompletionStatus : Type 0 where
  success failed timeout : CompletionStatus

pub data QueuePairState : Type 0 where
  reset init ready_to_receive ready_to_send error : QueuePairState

pub data OperationType : Type 0 where
  send write result : OperationType

pub data LogLevel : Type 0 where
  debug info warn error : LogLevel

unfoldable pub status_to_string : CompletionStatus → Text
status_to_string success = codes "success"
status_to_string failed = codes "failed"
status_to_string timeout = codes "timeout"

unfoldable pub state_to_string : QueuePairState → Text
state_to_string reset = codes "reset"
state_to_string init = codes "init"
state_to_string ready_to_receive = codes "ready_to_receive"
state_to_string ready_to_send = codes "ready_to_send"
state_to_string QueuePairState.error = codes "error"

unfoldable pub operation_to_string : OperationType → Text
operation_to_string send = codes "send"
operation_to_string write = codes "write"
operation_to_string result = codes "result"

unfoldable pub level_to_string : LogLevel → Text
level_to_string debug = codes "debug"
level_to_string info = codes "info"
level_to_string warn = codes "warn"
level_to_string LogLevel.error = codes "error"

-- A `char` is taken over as its unsigned byte, in both directions.
unfoldable pub bytes_from_string : Text → ByteBuffer
bytes_from_string [] = []
bytes_from_string (ch ∷ text) = ch % 256 ∷ bytes_from_string text

unfoldable pub string_from_bytes : ByteBuffer → Text
string_from_bytes [] = []
string_from_bytes (value ∷ bytes) = value % 256 ∷ string_from_bytes bytes

-- A string of C++ holds bytes.
abbrev pub IsBytes : Text → Type 0
IsBytes = All (λ c. c < 256)

pub string_from_bytes-bytes_from_string :
    (s : Text) → IsBytes s → string_from_bytes (bytes_from_string s) ≡ s
unfolding string_from_bytes bytes_from_string
string_from_bytes-bytes_from_string [] h = refl
string_from_bytes-bytes_from_string (c ∷ s) h =
    ground (arith, string_from_bytes-bytes_from_string s h.1)
