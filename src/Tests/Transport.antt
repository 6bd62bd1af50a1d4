-- ===== src/Tests/Transport.antt =====
-- Queue pairs, connections, the transport and the poller.
use rdma_ai_platform.Assoc.{find, assign}
use rdma_ai_platform.Bounded.{push_bounded}
use rdma_ai_platform.Common.{List, ◌≡◌, ◌↔◌, refl, true, false, [], ◌∷◌, ◌++◌, arith}
use rdma_ai_platform.Rdma.Poller.Drain.{rounds-messages}
use rdma_ai_platform.Rdma.Poller.{Poller, Polled, rounds}
use rdma_ai_platform.Rdma.QueuePair.Machine.{Step, transition_to-iff-Step}
use rdma_ai_platform.Rdma.QueuePair.{transition_to, is_ready_to_send}
use rdma_ai_platform.Rdma.TransportRdma.Delivery.{
  connects, sends, polls, Operation, operate_all, IsBounded, operate_all-IsBounded,
}
use rdma_ai_platform.Rdma.TransportRdma.Mailbox.{mailbox}
use rdma_ai_platform.Rdma.TransportRdma.{
  address, post_send, poll_receive, Wire, send_event, message_size,
}
use rdma_ai_platform.Rdma.TransportRdma as Transport
use rdma_ai_platform.Rdma.Types.{init}
use rdma_ai_platform.Tests.Data.{wire, fresh_pair, ready_pair, message}
use rdma_ai_platform.Text.{codes, text_eq}

transition_to-iff-Step_example :
    ((transition_to fresh_pair init).1 ≡ true) ↔ Step fresh_pair.state init
transition_to-iff-Step_example = transition_to-iff-Step fresh_pair init

-- A wire with a message for `b`.
abbrev sent : Wire
sent = post_send 5 [] ready_pair message wire

abbrev busy : List Operation
busy =
    connects ready_pair
    ∷ sends 1 [] ready_pair message
    ∷ sends 2 [] ready_pair message
    ∷ sends 3 [] ready_pair message
    ∷ polls (codes "b")
    ∷ []

wire-IsBounded : IsBounded 2 wire.transport
unfolding Transport.make mailbox find
wire-IsBounded = record { capacity = refl; within = λ node. omega arith }

operate_all-IsBounded_example : IsBounded 2 (operate_all busy wire).transport
operate_all-IsBounded_example = operate_all-IsBounded 2 busy wire (omega arith) wire-IsBounded

abbrev poller : Poller
poller = record {
  has_transport = true;
  node_id = codes "b";
  has_completions = false;
  running = true;
  has_thread = true;
  on_message = true;
  on_completion = false;
}

abbrev polled : Polled
polled = record {
  transport = sent.transport;
  completions = sent.completions;
  messages = [];
  events = [];
}

rounds-messages_example :
    ((rounds 1 poller polled).messages ≡ [] ++ address ready_pair message ∷ [])
    × (mailbox (rounds 1 poller polled).transport (codes "b") ≡ [])
unfolding mailbox find Transport.make post_send is_ready_to_send Transport.complete
    Transport.deliver assign text_eq push_bounded
rounds-messages_example =
    rounds-messages (address ready_pair message ∷ []) poller polled
      (record { running = refl; transport = refl; handler = refl }) refl
