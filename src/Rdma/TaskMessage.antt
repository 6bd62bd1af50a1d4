-- ===== src/Rdma/TaskMessage.antt =====
-- rdma/include/rdma/task_message.h.
pub mod RoundTrip
pub mod Metadata
use rdma_ai_platform.Common.{none, some, [], if◌then◌else◌, ℕ}
use rdma_ai_platform.OrderedMap.{OrderedMap, assign}
use rdma_ai_platform.Rdma.Heap.{Heap, load}
use rdma_ai_platform.Rdma.KeyValue.{Format, read_lines, field_line, meta_lines}
use rdma_ai_platform.Rdma.Types.{ByteBuffer, ByteBufferPtr, bytes_from_string, string_from_bytes}
use rdma_ai_platform.Text.Lines.{lines}
use rdma_ai_platform.Text.{Text, codes, text_eq}

pub record TaskMessage : Type 0 where
  pub task_id : Text
  pub kind : Text
  pub source_node : Text
  pub target_node : Text
  pub description : Text
  pub metadata : OrderedMap

-- `TaskMessage{}`.
abbrev pub empty_task : TaskMessage
empty_task = record {
  task_id = [];
  kind = [];
  source_node = [];
  target_node = [];
  description = [];
  metadata = [];
}

-- What is written to the stream.
unfoldable pub to_text : TaskMessage → Text
to_text t = field_line (codes "task_id") t.task_id (
    field_line (codes "kind") t.kind (
      field_line (codes "source_node") t.source_node (
        field_line (codes "target_node") t.target_node
          (field_line (codes "description") t.description (meta_lines t.metadata)))))

unfoldable pub serialize : TaskMessage → ByteBuffer
serialize t = bytes_from_string (to_text t)

-- The chain of tests on the key of a line; another key is passed over.
unfoldable pub set_field : Text → Text → TaskMessage → TaskMessage
set_field key value t =
    if text_eq key (codes "task_id")
    then record t { task_id = value }
    else if text_eq key (codes "kind")
    then record t { kind = value }
    else if text_eq key (codes "source_node")
    then record t { source_node = value }
    else if text_eq key (codes "target_node")
    then record t { target_node = value }
    else if text_eq key (codes "description")
    then record t { description = value }
    else t

abbrev pub task_format : Format TaskMessage
task_format = record {
  set_field = set_field;
  set_meta = λ key value t. record t { metadata = assign key value t.metadata };
}

unfoldable pub deserialize : ByteBuffer → TaskMessage
deserialize payload = read_lines task_format (lines (string_from_bytes payload)) empty_task

-- The overload for a pointer: a null pointer gives the empty message.
unfoldable pub deserialize_at : ByteBufferPtr → Heap → TaskMessage
deserialize_at p h = elim (load p h) [ none ↦ empty_task | some payload ↦ deserialize payload ]
