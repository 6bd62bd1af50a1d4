-- ===== src/Rdma/ResultMessage.antt =====
-- rdma/include/rdma/result_message.h.
pub mod RoundTrip
use rdma_ai_platform.Common.{Bool, true, false, none, some, [], if◌then◌else◌, ℕ}
use rdma_ai_platform.OrderedMap.{OrderedMap, assign}
use rdma_ai_platform.Rdma.Heap.{Heap, load}
use rdma_ai_platform.Rdma.KeyValue.{Format, read_lines, field_line, meta_lines}
use rdma_ai_platform.Rdma.Types.{ByteBuffer, ByteBufferPtr, bytes_from_string, string_from_bytes}
use rdma_ai_platform.Text.Lines.{lines}
use rdma_ai_platform.Text.{Text, codes, text_eq}

pub record ResultMessage : Type 0 where
  pub task_id : Text
  pub worker_node : Text
  pub target_node : Text
  pub success : Bool
  pub detail : Text
  pub metadata : OrderedMap

-- `ResultMessage{}`.
abbrev pub empty_result : ResultMessage
empty_result = record {
  task_id = [];
  worker_node = [];
  target_node = [];
  success = false;
  detail = [];
  metadata = [];
}

-- `success ? "1" : "0"`.
abbrev pub flag : Bool → Text
flag true = codes "1"
flag false = codes "0"

-- What is written to the stream.
unfoldable pub to_text : ResultMessage → Text
to_text r = field_line (codes "task_id") r.task_id (
    field_line (codes "worker_node") r.worker_node (
      field_line (codes "target_node") r.target_node (
        field_line (codes "success") (flag r.success)
          (field_line (codes "detail") r.detail (meta_lines r.metadata)))))

unfoldable pub serialize : ResultMessage → ByteBuffer
serialize r = bytes_from_string (to_text r)

-- The chain of tests on the key of a line; another key is passed over.
unfoldable pub set_field : Text → Text → ResultMessage → ResultMessage
set_field key value r =
    if text_eq key (codes "task_id")
    then record r { task_id = value }
    else if text_eq key (codes "worker_node")
    then record r { worker_node = value }
    else if text_eq key (codes "target_node")
    then record r { target_node = value }
    else if text_eq key (codes "success")
    then record r { success = text_eq value (codes "1") }
    else if text_eq key (codes "detail")
    then record r { detail = value }
    else r

abbrev pub result_format : Format ResultMessage
result_format = record {
  set_field = set_field;
  set_meta = λ key value r. record r { metadata = assign key value r.metadata };
}

unfoldable pub deserialize : ByteBuffer → ResultMessage
deserialize payload = read_lines result_format (lines (string_from_bytes payload)) empty_result

-- The overload for a pointer: a null pointer gives the empty message.
unfoldable pub deserialize_at : ByteBufferPtr → Heap → ResultMessage
deserialize_at p h = elim (load p h) [ none ↦ empty_result | some payload ↦ deserialize payload ]
