-- ===== src/Prototype/WorkerRuntime.antt =====
-- worker/runtime/worker_runtime.h and worker/runtime/worker_runtime.cpp. The transport that the
-- runtime was given is part of what it shares with others (Rdma/Fabric); the code calls it without
-- a test for null.
pub mod Exchange
use rdma_ai_platform.Common.{Option, none, some, [], if◌then◌else◌}
use rdma_ai_platform.Assoc.{Assoc, find, emplace}
use rdma_ai_platform.Prototype.TaskExecutor as Task
use rdma_ai_platform.Prototype.TaskExecutor.{TaskExecutor, TaskSpec, TaskResult, Executed, execute}
use rdma_ai_platform.Rdma.CompletionQueue as Queue
use rdma_ai_platform.Rdma.CompletionQueue.{CompletionQueue, CompletionEvent}
use rdma_ai_platform.Rdma.Config.{default_rdma_config}
use rdma_ai_platform.Rdma.Fabric.{Fabric, connect_through, receive_through}
use rdma_ai_platform.Rdma.MemoryRegion.{MemoryRegistry, empty_registry}
use rdma_ai_platform.Rdma.QueuePair as Pair
use rdma_ai_platform.Rdma.QueuePair.{QueuePair, QueuePairConfig, transition_to}
use rdma_ai_platform.Rdma.TransportRdma.{Message}
use rdma_ai_platform.Rdma.Types.{init, ready_to_receive, ready_to_send}
use rdma_ai_platform.Text.{Text, is_empty}

pub record WorkerRuntime : Type 0 where
  pub node_id : Text
  pub registry : MemoryRegistry
  pub completions : CompletionQueue
  pub executor : TaskExecutor
  pub peers : Assoc QueuePair

-- The constructor.
unfoldable pub make : Text → WorkerRuntime
make node_id = record {
  node_id = node_id;
  registry = empty_registry;
  completions = Queue.make default_rdma_config.completion_queue;
  executor = Task.make node_id;
  peers = [];
}

abbrev pub peer_config : Text → Text → QueuePairConfig
peer_config node peer = record {
  local_node = node;
  remote_node = peer;
  max_send_wr = 256;
  max_recv_wr = 256;
}

-- A new queue pair, asked for the three states in order.
unfoldable pub new_pair : Text → Text → QueuePair
new_pair node peer =
    let qp = (transition_to (Pair.make (peer_config node peer)) init).0 in
    let qp' = (transition_to qp ready_to_receive).0 in (transition_to qp' ready_to_send).0

unfoldable pub ensure_peer : Text → WorkerRuntime → Fabric → QueuePair × WorkerRuntime × Fabric
unfolding new_pair
ensure_peer peer r f = elim (find peer r.peers) [
  | some qp ↦ (qp, r, f)
  | none ↦
      let qp = new_pair r.node_id peer in
      (qp, record r { peers = emplace peer qp r.peers }, connect_through qp f)
]

-- `spec.target_node.empty() ? node_id_ : spec.target_node`.
abbrev pub peer_of : TaskSpec → WorkerRuntime → Text
peer_of spec r = if is_empty spec.target_node then r.node_id else spec.target_node

unfoldable pub submit : TaskSpec → WorkerRuntime → Fabric → WorkerRuntime × Fabric × TaskResult
unfolding ensure_peer
submit spec r f =
    let (qp, r', f') = ensure_peer (peer_of spec r) r f in
    let done = execute spec qp r'.registry r'.completions r'.executor f' in
    (
      record r' {
        registry = done.registry;
        completions = done.completions;
        executor = done.executor;
      },
      done.fabric,
      done.result,
    )

unfoldable pub poll : WorkerRuntime → Fabric → Fabric × Option Message
poll r f = receive_through r.node_id f

unfoldable pub poll_completion : WorkerRuntime → WorkerRuntime × Option CompletionEvent
poll_completion r =
    let (cq, event) = Queue.poll r.completions in (record r { completions = cq }, event)
