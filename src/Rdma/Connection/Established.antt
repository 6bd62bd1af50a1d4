-- ===== src/Rdma/Connection/Established.antt =====
-- An established connection has a queue pair that may send.
use rdma_ai_platform.Common.{refl, true, false, List, [], ◌∷◌, arith, ◌≡◌}
use rdma_ai_platform.Rdma.Connection.{Connection, make, establish, fail}
use rdma_ai_platform.Rdma.QueuePair.Machine.{bring_up_lem}
use rdma_ai_platform.Rdma.QueuePair.{
  QueuePair, QueuePairConfig, bring_up, is_ready_to_send, transition_to, state_eq,
}
use rdma_ai_platform.Rdma.QueuePair as Pair
use rdma_ai_platform.Rdma.Types.{ready_to_send}

-- What the flag says of the queue pair.
abbrev pub IsConsistent : Connection → Type 0
IsConsistent c = c.established ≡ true → is_ready_to_send c.queue_pair ≡ true

-- The calls on a connection that change it.
pub data Call : Type 0 where
  establishes fails : Call

pub call : Call → Connection → Connection
call establishes c = (establish c).0
call fails c = (fail c).0

pub calls : List Call → Connection → Connection
calls [] c = c
calls (k ∷ ks) c = calls ks (call k c)

call-IsConsistent : (k : Call) (c : Connection) → IsConsistent c → IsConsistent (call k c)
unfolding call establish fail is_ready_to_send state_eq
call-IsConsistent establishes c h = ground (arith, bring_up_lem c.queue_pair)
call-IsConsistent fails c h = ground arith

-- After any calls on a new connection, the flag is set only while the queue pair is ready to send.
pub calls-IsConsistent :
    (ks : List Call) (c : Connection) → IsConsistent c → IsConsistent (calls ks c)
unfolding calls
calls-IsConsistent [] c h = h
calls-IsConsistent (k ∷ ks) c h = calls-IsConsistent ks (call k c) (call-IsConsistent k c h)

-- A new connection is established at once, ready to send, under the nodes of its configuration.
pub establish-make :
    (c : QueuePairConfig)
    → establish (make (Pair.make c)) ≡ (
      record { queue_pair = record { config = c; state = ready_to_send }; established = true },
      true,
    )
unfolding establish make Pair.make bring_up
establish-make c = refl

-- A failed connection cannot be established again.
pub establish-fail : (c : Connection) → (establish (fail c).0).1 ≡ false
unfolding establish fail bring_up transition_to state_eq
establish-fail c = ground (arith)
