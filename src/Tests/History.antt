-- ===== src/Tests/History.antt =====
-- What a node is sent and receives.
use rdma_ai_platform.Common.{◌≡◌, List, [], ◌∷◌, ◌++◌, arith}
use rdma_ai_platform.Assoc.{find}
use rdma_ai_platform.Rdma.QueuePair.{is_ready_to_send, state_eq}
use rdma_ai_platform.Rdma.TransportRdma as Transport
use rdma_ai_platform.Rdma.TransportRdma.Delivery.{connects, sends, polls, Operation, operate_all}
use rdma_ai_platform.Rdma.TransportRdma.History.{
  sent_all, received_all, operate_all-Subsequence, operate_all_lossless,
}
use rdma_ai_platform.Rdma.TransportRdma.Mailbox.{mailbox}
use rdma_ai_platform.Subsequence.{Subsequence}
use rdma_ai_platform.Tests.Data.{wire, fresh_pair, ready_pair, message}
use rdma_ai_platform.Text.{codes, text_eq}

-- A send that is refused, three that are not, into a mailbox for two, and a poll.
abbrev crowded : List Operation
crowded =
    sends 0 [] fresh_pair message
    ∷ sends 1 [] ready_pair message
    ∷ sends 2 [] ready_pair message
    ∷ sends 3 [] ready_pair message
    ∷ polls (codes "b")
    ∷ []

operate_all-Subsequence_example :
    Subsequence
      (received_all (codes "b") crowded wire
        ++ mailbox (operate_all crowded wire).transport (codes "b"))
      (mailbox wire.transport (codes "b") ++ sent_all (codes "b") crowded)
operate_all-Subsequence_example = operate_all-Subsequence (codes "b") crowded wire

abbrev roomy : List Operation
roomy =
    connects ready_pair
    ∷ sends 1 [] ready_pair message
    ∷ polls (codes "a")
    ∷ sends 2 [] ready_pair message
    ∷ polls (codes "b")
    ∷ []

operate_all_lossless_example :
    received_all (codes "b") roomy wire ++ mailbox (operate_all roomy wire).transport (codes "b")
    ≡ mailbox wire.transport (codes "b") ++ sent_all (codes "b") roomy
unfolding mailbox find Transport.make is_ready_to_send state_eq text_eq
operate_all_lossless_example = operate_all_lossless (codes "b") roomy wire (omega arith)
