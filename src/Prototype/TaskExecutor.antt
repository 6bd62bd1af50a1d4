-- ===== src/Prototype/TaskExecutor.antt =====
-- worker/task/task.h and worker/task/task.cpp: a task with a tensor, and its posting. A call works
-- on what the caller shares with others (Rdma/Fabric) and returns what it changes.
use rdma_ai_platform.Common.{◌+◌, ◌%◌, ◌^◌, Bool, true}
use rdma_ai_platform.OrderedMap.{OrderedMap}
use rdma_ai_platform.Prototype.Tensor.{Tensor, serialize, summary}
use rdma_ai_platform.Rdma.CompletionQueue.{CompletionQueue}
use rdma_ai_platform.Rdma.Fabric.{Fabric, send_through}
use rdma_ai_platform.Rdma.MemoryRegion.{MemoryRegistry, register}
use rdma_ai_platform.Rdma.QueuePair.{QueuePair}
use rdma_ai_platform.Rdma.TransportRdma.{Message}
use rdma_ai_platform.Rdma.Types.{ByteBufferPtr, WorkRequestId, send}
use rdma_ai_platform.Text.{Text, codes}

pub data TaskKind : Type 0 where
  broadcast all_reduce load_shard : TaskKind

unfoldable pub kind_to_string : TaskKind → Text
kind_to_string broadcast = codes "broadcast"
kind_to_string all_reduce = codes "all-reduce"
kind_to_string load_shard = codes "load-shard"

pub record TaskSpec : Type 0 where
  pub id : Text
  pub kind : TaskKind
  pub target_node : Text
  pub tensor : Tensor
  pub metadata : OrderedMap

pub record TaskResult : Type 0 where
  pub task_id : Text
  pub success : Bool
  pub detail : Text
  pub work_request_id : WorkRequestId

pub record TaskExecutor : Type 0 where
  pub local_node : Text
  pub next_work_request_id : WorkRequestId

-- The constructor.
unfoldable pub make : Text → TaskExecutor
make local_node = record { local_node = local_node; next_work_request_id = 1 }

-- The message that `Execute` posts.
unfoldable pub tensor_message : Text → TaskSpec → ByteBufferPtr → WorkRequestId → Message
tensor_message node spec payload id = record {
  source = node;
  destination = spec.target_node;
  topic = kind_to_string spec.kind;
  description = summary spec.tensor;
  payload = payload;
  work_request_id = id;
  operation = send;
}

-- What `Execute` changes, and its result.
pub record Executed : Type 0 where
  pub executor : TaskExecutor
  pub registry : MemoryRegistry
  pub completions : CompletionQueue
  pub fabric : Fabric
  pub result : TaskResult

unfoldable pub execute :
    TaskSpec → QueuePair → MemoryRegistry → CompletionQueue → TaskExecutor → Fabric → Executed
unfolding tensor_message
execute spec qp registry completions e f =
    let (region, registry', heap) = register (serialize spec.tensor) registry f.heap in
    let id = e.next_work_request_id in
    let (cq, f') =
      send_through qp (tensor_message e.local_node spec region.storage id) completions
        (record f { heap = heap }) in
    record {
      executor = record e { next_work_request_id = (id + 1) % 2 ^ 64 };
      registry = registry';
      completions = cq;
      fabric = f';
      result = record {
        task_id = spec.id;
        success = true;
        detail = codes "task submitted to transport";
        work_request_id = id;
      };
    }
