-- ===== src/Worker/TcpTransport/Lifecycle.antt =====
-- Starting and stopping the task server.
use rdma_ai_platform.Common.{◌≡◌, List, [], ◌∷◌, arith}
use rdma_ai_platform.Worker.TcpTransport.{TcpTransport, Calls, start, stop}

-- The listening socket and the accept thread are there exactly while the transport runs.
pub record IsConsistent (t : TcpTransport) : Type 0 where
  pub socket : t.listen_open ≡ t.running
  pub thread : t.has_thread ≡ t.running

pub data Call : Type 0 where
  starts : Calls → Call
  stop_calls : Call

pub call : Call → TcpTransport → TcpTransport
call (starts k) t = (start k t).0
call stop_calls t = stop t

pub call_all : List Call → TcpTransport → TcpTransport
call_all [] t = t
call_all (c ∷ cs) t = call_all cs (call c t)

call-IsConsistent : (c : Call) (t : TcpTransport) → IsConsistent t → IsConsistent (call c t)
unfolding call start stop
call-IsConsistent (starts k) t v = ground arith
call-IsConsistent stop_calls t v = ground arith

-- After any starts and stops, whatever the system calls return, neither a socket nor a thread is
-- leaked: both are there exactly while the transport runs.
pub call_all-IsConsistent :
    (cs : List Call) (t : TcpTransport) → IsConsistent t → IsConsistent (call_all cs t)
unfolding call_all
call_all-IsConsistent [] t v = v
call_all-IsConsistent (c ∷ cs) t v = call_all-IsConsistent cs (call c t) (call-IsConsistent c t v)
