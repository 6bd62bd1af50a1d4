-- ===== src/Rdma/Handshake.antt =====
-- rdma/include/rdma/handshake.h and rdma/src/handshake.cpp: both ends of a connection must have a
-- name.
use rdma_ai_platform.Common.{arith, ◌≡◌, ◌≢◌, ◌↔◌, Bool, true, false, [], if◌then◌else◌}
use rdma_ai_platform.Rdma.QueuePair.{QueuePairConfig}
use rdma_ai_platform.Text.{Text, codes, is_empty}

pub record HandshakeRequest : Type 0 where
  pub initiator : Text
  pub responder : Text

pub record HandshakeResponse : Type 0 where
  pub accepted : Bool
  pub detail : Text

unfoldable pub build : QueuePairConfig → HandshakeRequest
build config = record { initiator = config.local_node; responder = config.remote_node }

unfoldable pub validate : HandshakeRequest → HandshakeResponse
validate request =
    if is_empty request.initiator
    then record { accepted = false; detail = codes "handshake initiator is empty" }
    else if is_empty request.responder
    then record { accepted = false; detail = codes "handshake responder is empty" }
    else record { accepted = true; detail = codes "handshake accepted" }

-- A handshake is accepted exactly when both nodes of the queue pair are named.
pub validate-build :
    (c : QueuePairConfig)
    → ((validate (build c)).accepted ≡ true) ↔ ((c.local_node ≢ []) × (c.remote_node ≢ []))
unfolding validate build
validate-build c = ground arith
