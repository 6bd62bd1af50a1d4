-- ===== src/Rdma/Connection.antt =====
-- rdma/include/rdma/connection.h and rdma/src/connection.cpp: a queue pair with the flag that it
-- is established.
pub mod Established
use rdma_ai_platform.Common.{◌≡◌, Bool, true, false, ◌++◌, if◌then◌else◌}
use rdma_ai_platform.Rdma.QueuePair.{QueuePair, bring_up, transition_to}
use rdma_ai_platform.Rdma.Types.{QueuePairState}
use rdma_ai_platform.Text.{Text, codes}

pub record Connection : Type 0 where
  pub queue_pair : QueuePair
  pub established : Bool

-- The constructor.
unfoldable pub make : QueuePair → Connection
make qp = record { queue_pair = qp; established = false }

unfoldable pub establish : Connection → Connection × Bool
establish c =
    if c.established
    then (c, true)
    else let (qp, up) = bring_up c.queue_pair in (record { queue_pair = qp; established = up }, up)

unfoldable pub fail : Connection → Connection × Bool
fail c =
    let (qp, moved) = transition_to c.queue_pair QueuePairState.error in
    (record { queue_pair = qp; established = false }, moved)

unfoldable pub channel_id : Connection → Text
channel_id c = c.queue_pair.config.local_node ++ (codes "->" ++ c.queue_pair.config.remote_node)
