-- ===== src/Examples/Demos/Writing.antt =====
-- The write example for a region of any size.
use rdma_ai_platform.Common.{sym, ◌∷◌, arith, ==_iff, ℕ, refl, ap, ◌∙◌, ◌≡◌, true, []}
use rdma_ai_platform.Examples.Demos.{
  write_through, write_demo, write_received, is_write, ready_queue_pair, fill_at,
}
use rdma_ai_platform.Rdma.CompletionQueue as Queue
use rdma_ai_platform.Rdma.CompletionQueue.{CompletionQueue, CompletionEvent}
use rdma_ai_platform.Rdma.EventChannel.{Channels}
use rdma_ai_platform.Assoc.{find, emplace}
use rdma_ai_platform.Bounded.{push_bounded, push_bounded-nil}
use rdma_ai_platform.Examples.PingPong.{has_value}
use rdma_ai_platform.Rdma.Config.{default_rdma_config}
use rdma_ai_platform.Rdma.Heap.{Heap}
use rdma_ai_platform.Rdma.MemoryRegion.{empty_registry, register_size, MemoryRegion, region_size}
use rdma_ai_platform.Rdma.QueuePair as Pair
use rdma_ai_platform.Rdma.QueuePair.{state_eq, QueuePair, bring_up, is_ready_to_send}
use rdma_ai_platform.Rdma.TransportRdma.Delivery.{completions-post_send, poll_receive-post_send}
use rdma_ai_platform.Rdma.TransportRdma.Mailbox.{mailbox}
use rdma_ai_platform.Rdma.TransportRdma as Transport
use rdma_ai_platform.Rdma.TransportRdma.{
  Message, Wire, connect, post_write, post_send, poll_receive, message_size, address,
}
use rdma_ai_platform.Rdma.Types.{TimePoint, WorkRequestId, write}
use rdma_ai_platform.Text.{text_eq, Text, codes}

-- A write into an empty mailbox of a ready pair's peer is what the peer receives next: a write of
-- the region's bytes.
pub write_received-post_write :
    (now : TimePoint) (h : Heap) (qp : QueuePair) (region : MemoryRegion) (topic : Text)
    (id : WorkRequestId) (w : Wire)
    → is_ready_to_send qp ≡ true
    → mailbox w.transport qp.config.remote_node ≡ []
    → write_received
        (poll_receive qp.config.remote_node (post_write now h qp region topic id w).transport).1
        region
        h
      ≡ true
unfolding post_write write_received is_write message_size region_size address
write_received-post_write now h qp region topic id w ready empty =
    let m : Message = record {
      source = qp.config.local_node;
      destination = qp.config.remote_node;
      topic = topic;
      description = region.key;
      payload = region.storage;
      work_request_id = id;
      operation = write;
    } in
    ap (λ o. write_received o region h) (poll_receive-post_send now h qp m w ready empty).0
    ∙ (==_iff (region_size region h) (region_size region h)).1 refl

-- An event pushed onto an empty queue is there to be polled.
poll-push :
    (event : CompletionEvent) (q : CompletionQueue) (cs : Channels)
    → q.queue ≡ []
    → has_value (Queue.poll (Queue.push event q cs).0).1 ≡ true
unfolding Queue.poll Queue.push Queue.pop_front
poll-push event q cs empty =
    let one : push_bounded q.config.depth event q.queue ≡ event ∷ [] =
      ap (push_bounded q.config.depth event) empty ∙ push_bounded-nil q.config.depth event in
    rw one refl

-- So after a send, whether its pair may send or not.
poll-post_send :
    (now : TimePoint) (h : Heap) (qp : QueuePair) (m : Message) (w : Wire)
    → w.completions.queue ≡ []
    → has_value (Queue.poll (post_send now h qp m w).completions).1 ≡ true
poll-post_send now h qp m w empty =
    ap (λ q. has_value (Queue.poll q).1) (completions-post_send now h qp m w).0
    ∙ poll-push _ w.completions w.channels empty

-- With no message and no event before it, a write through a ready pair to `write-dst` succeeds.
write_through_lem :
    (now : TimePoint) (qp : QueuePair) (region : MemoryRegion) (h : Heap) (w : Wire)
    → is_ready_to_send qp ≡ true
    → qp.config.remote_node ≡ codes "write-dst"
    → mailbox w.transport (codes "write-dst") ≡ []
    → w.completions.queue ≡ []
    → write_through now qp region h w ≡ 0
unfolding write_through
write_through_lem now qp region h w ready named empty fresh =
    let sent =
      write_received-post_write now h qp region (codes "tensor-write") 1 w ready
        (ap (mailbox w.transport) named ∙ empty) in
    let w' = post_write now h qp region (codes "tensor-write") 1 w in
    let received : write_received (poll_receive (codes "write-dst") w'.transport).1 region h
        ≡ true =
      ap (λ n. write_received (poll_receive n w'.transport).1 region h) (sym named) ∙ sent in
    let completed : has_value (Queue.poll w'.completions).1 ≡ true =
      unfold post_write in poll-post_send now h qp _ w fresh in
    ground (arith, received, completed)

-- The write example returns 0 for a region of any size: the receiver finds a write of that many
-- bytes, and the sender finds the completion.
pub write_demo_lem : (bytes : ℕ) (now : TimePoint) → write_demo bytes now ≡ 0
unfolding write_demo ready_queue_pair bring_up Pair.make is_ready_to_send state_eq mailbox connect
    find emplace text_eq Transport.make Queue.make
write_demo_lem bytes now =
    let qp = ready_queue_pair (codes "write-src") (codes "write-dst") in
    let (region, registry, heap) = register_size bytes empty_registry [] in
    write_through_lem now qp region (fill_at region.storage 60 heap)
      (record {
        transport = connect qp (Transport.make default_rdma_config.transport);
        completions = Queue.make default_rdma_config.completion_queue;
        channels = [];
      })
      refl refl refl refl
