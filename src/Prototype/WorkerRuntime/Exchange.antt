-- ===== src/Prototype/WorkerRuntime/Exchange.antt =====
-- A tensor from one runtime to another.
use rdma_ai_platform.Common.{
  [], some_inj, ◌≡◌, refl, sym, ap, ◌∙◌, inl, inr, true, none, some, arith, Bool-cases,
  Option-cases,
}
use mathlib.Core.Path.{subst₂}
use rdma_ai_platform.Assoc.{find, emplace, find-emplace, find-emplace_new}
use rdma_ai_platform.Prototype.TaskExecutor as Task
use rdma_ai_platform.Rdma.Types.{ByteBufferPtr, WorkRequestId}
use rdma_ai_platform.Rdma.Heap.{Heap}
use rdma_ai_platform.Prototype.Tensor.{summary}
use rdma_ai_platform.Prototype.TaskExecutor.{kind_to_string, TaskSpec, tensor_message, execute}
use rdma_ai_platform.Prototype.Tensor.{serialize}
use rdma_ai_platform.Prototype.WorkerRuntime.{
  WorkerRuntime, make, peer_config, new_pair, ensure_peer, peer_of, submit, poll,
}
use rdma_ai_platform.Rdma.Fabric.Exchange.{receive_through-send_through}
use rdma_ai_platform.Rdma.Fabric.{Fabric, connect_through, send_through, receive_through}
use rdma_ai_platform.Rdma.Heap.{load}
use rdma_ai_platform.Rdma.MemoryRegion.Registry.{register-load}
use rdma_ai_platform.Rdma.MemoryRegion.{register}
use rdma_ai_platform.Rdma.QueuePair as Pair
use rdma_ai_platform.Rdma.QueuePair.{QueuePair, is_ready_to_send, state_eq, transition_to}
use rdma_ai_platform.Rdma.TransportRdma.Mailbox.{mailbox, mailbox-connect}
use rdma_ai_platform.Rdma.TransportRdma.{Message, address}
use rdma_ai_platform.Text.{Text, text_eq, text_eq_iff}

-- A pair of `node` that may send to `peer`.
abbrev pub Leads : Text → Text → QueuePair → Type 0
Leads node peer qp = (is_ready_to_send qp ≡ true) × (qp.config ≡ peer_config node peer)

-- Every queue pair that a runtime keeps may send, to the peer that it is kept under, and its
-- executor works under its node.
pub record IsSound (r : WorkerRuntime) : Type 0 where
  pub leads : (peer : Text) (qp : QueuePair) → find peer r.peers ≡ some qp → Leads r.node_id peer qp
  pub own : r.executor.local_node ≡ r.node_id

pub make-IsSound : (node : Text) → IsSound (make node)
unfolding make Task.make find
make-IsSound node = record { leads = λ peer qp e. cc; own = refl }

new_pair-Leads : (node peer : Text) → Leads node peer (new_pair node peer)
unfolding new_pair is_ready_to_send state_eq transition_to Pair.make
new_pair-Leads node peer = (refl, refl)

-- What `EnsurePeer` promises.
pub record Ensured (peer : Text) (r : WorkerRuntime) (f : Fabric)
    (out : QueuePair × WorkerRuntime × Fabric) : Type 0 where
  pub leads : Leads r.node_id peer out.0
  pub all_lead : IsSound out.1
  pub node : out.1.node_id ≡ r.node_id
  pub mailboxes : (j : Text) → mailbox out.2.transport j ≡ mailbox f.transport j

emplace-IsSound :
    (peer : Text) (r : WorkerRuntime)
    → IsSound r
    → find peer r.peers ≡ none
    → IsSound (record r { peers = emplace peer (new_pair r.node_id peer) r.peers })
emplace-IsSound peer r v e = record {
  leads = λ p qp found. elim (Bool-cases (text_eq peer p)) [
    | inl same ↦
        let named : peer ≡ p = (text_eq_iff peer p).0 same in
        let new : some (new_pair r.node_id peer) ≡ some qp =
          sym (find-emplace_new peer (new_pair r.node_id peer) r.peers e)
          ∙ ap (λ k. find k (emplace peer (new_pair r.node_id peer) r.peers)) named
          ∙ found in
        subst₂ (Leads r.node_id) named (some_inj new) (new_pair-Leads r.node_id peer)
    | inr other ↦
        v.leads p qp (ground (arith, find-emplace peer p (new_pair r.node_id peer) r.peers))
  ];
  own = v.own;
}

ensure_peer-Ensured :
    (peer : Text) (r : WorkerRuntime) (f : Fabric)
    → IsSound r
    → Ensured peer r f (ensure_peer peer r f)
unfolding ensure_peer connect_through
ensure_peer-Ensured peer r f v = elim (Option-cases (find peer r.peers)) [
  | inr (qp, e) ↦
      rw (e, ensure_peer)
        (record { leads = v.leads peer qp e; all_lead = v; node = refl; mailboxes = λ j. refl })
  | inl e ↦
      rw (e, ensure_peer)
        (record {
          leads = new_pair-Leads r.node_id peer;
          all_lead = emplace-IsSound peer r v e;
          node = refl;
          mailboxes = mailbox-connect (new_pair r.node_id peer) f.transport;
        })
]

-- `Submit` keeps, for every peer, a queue pair that may send to it.
pub submit-IsSound :
    (spec : TaskSpec) (r : WorkerRuntime) (f : Fabric) → IsSound r → IsSound (submit spec r f).0
unfolding submit execute
submit-IsSound spec r f v =
    let e = ensure_peer-Ensured (peer_of spec r) r f v in
    record { leads = e.all_lead.leads; own = e.all_lead.own }

-- The message that carries a tensor, as it is received.
pub record Carries (spec : TaskSpec) (from to : Text) (id : WorkRequestId) (heap : Heap)
    (m : Message) : Type 0 where
  pub destination : m.destination ≡ to
  pub source : m.source ≡ from
  pub topic : m.topic ≡ kind_to_string spec.kind
  pub description : m.description ≡ summary spec.tensor
  pub work_request : m.work_request_id ≡ id
  pub payload : load m.payload heap ≡ some (serialize spec.tensor)

address-Carries :
    (qp : QueuePair) (spec : TaskSpec) (from to : Text) (p : ByteBufferPtr) (id : WorkRequestId)
    (heap : Heap)
    → qp.config ≡ peer_config from to
    → load p heap ≡ some (serialize spec.tensor)
    → Carries spec from to id heap (address qp (tensor_message from spec p id))
unfolding address tensor_message
address-Carries qp spec from to p id heap e l = record {
  destination = ap (λ c. c.remote_node) e;
  source = ground (arith, ap (λ c. c.local_node) e);
  topic = refl;
  description = refl;
  work_request = refl;
  payload = l;
}

-- A tensor that one runtime submits is in the next message that its target polls, when the target's
-- mailbox is empty: from the runtime's own node and to the target, under the topic of the task's
-- kind, described by the tensor's summary, under the number of the result, with the tensor's bytes
-- as payload. A task without a target goes to the runtime's own node.
pub poll-submit :
    (spec : TaskSpec) (a b : WorkerRuntime) (f : Fabric)
    → IsSound a
    → b.node_id ≡ peer_of spec a
    → mailbox f.transport (peer_of spec a) ≡ []
    → let (a', f', result) = submit spec a f in
      (m : Message) × ((poll b f').1 ≡ some m)
      × Carries spec a.node_id b.node_id result.work_request_id (poll b f').0.heap m
unfolding submit execute poll receive_through send_through
poll-submit spec a b f v named empty =
    let e = ensure_peer-Ensured (peer_of spec a) a f v in
    let (qp, r, g) = ensure_peer (peer_of spec a) a f in
    let (region, registry, heap) = register (serialize spec.tensor) r.registry g.heap in
    let m =
      tensor_message r.executor.local_node spec region.storage r.executor.next_work_request_id in
    let received =
      receive_through-send_through qp m r.completions (record g { heap = heap }) (peer_of spec a)
        e.leads.0 (ap (λ c. c.remote_node) e.leads.1) (e.mailboxes (peer_of spec a) ∙ empty) in
    let from : r.executor.local_node ≡ a.node_id = e.all_lead.own ∙ e.node in
    let carries =
      address-Carries qp spec r.executor.local_node (peer_of spec a) region.storage
        r.executor.next_work_request_id heap
        (e.leads.1 ∙ ap (λ n. peer_config n (peer_of spec a)) (sym from))
        (register-load (serialize spec.tensor) r.registry g.heap) in
    (
      address qp m,
      ap (λ n. (receive_through n (submit spec a f).1).1) named ∙ received,
      subst₂ (λ n k. Carries spec n k r.executor.next_work_request_id heap (address qp m)) from
          (sym named) carries,
    )
