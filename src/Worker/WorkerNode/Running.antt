-- ===== src/Worker/WorkerNode/Running.antt =====
-- What of a worker runs, and that `stop` leaves nothing of it.
use rdma_ai_platform.Common.{
  ◌≡◌, refl, true, false, Option, none, some, List, [], ◌∷◌, arith, ℕ, replicate, length,
}
use rdma_ai_platform.Worker.TcpTransport as Server
use rdma_ai_platform.Worker.TcpTransport.{TcpTransport, new_transport, Calls}
use rdma_ai_platform.Worker.ThreadPool as Pool
use rdma_ai_platform.Worker.ThreadPool.{ThreadPool, enqueue, idle, make}
use rdma_ai_platform.Worker.Timer as Clock
use rdma_ai_platform.Worker.WorkerNode.{
  WorkerNode, stop_transport, stop_pool, stop, to_size, rounds_to,
}

abbrev pub IsShut : Option TcpTransport → Type 0
IsShut none = Unit
IsShut (some t) = (t.running ≡ false) × (t.listen_open ≡ false) × (t.has_thread ≡ false)

abbrev pub IsOpen : Option TcpTransport → Type 0
IsOpen none = ⊥
IsOpen (some t) = (t.running ≡ true) × (t.listen_open ≡ true) × (t.has_thread ≡ true)

abbrev pub IsEmptied : Option ThreadPool → Type 0
IsEmptied none = Unit
IsEmptied (some p) = (p.started ≡ false) × (p.threads ≡ []) × (p.tasks ≡ [])

-- A started pool of `n` threads that was handed `k` consumers.
abbrev pub IsManned : ℕ → ℕ → Option ThreadPool → Type 0
IsManned n k none = ⊥
IsManned n k (some p) = (p.started ≡ true) × (p.threads ≡ replicate n idle) × (length p.tasks ≡ k)

-- A pool that is not started has no task.
abbrev pub IsTidy : Option ThreadPool → Type 0
IsTidy none = Unit
IsTidy (some p) = p.started ≡ false → p.tasks ≡ []

-- A worker with nothing left that runs: no heartbeat, no socket, no thread.
pub record IsIdle (n : WorkerNode) : Type 0 where
  pub running : n.running ≡ false
  pub timer : (n.heartbeat_timer.running ≡ false) × (n.heartbeat_timer.has_thread ≡ false)
  pub transport : IsShut n.transport
  pub pool : IsEmptied n.thread_pool

-- A worker all of whose parts run, with as many threads as its configuration says, and as many
-- consumers handed to them.
pub record IsUp (n : WorkerNode) : Type 0 where
  pub running : n.running ≡ true
  pub timer : (n.heartbeat_timer.running ≡ true) × (n.heartbeat_timer.has_thread ≡ true)
  pub transport : IsOpen n.transport
  pub pool : IsManned (to_size n.config.threads) (rounds_to n.config.threads) n.thread_pool

pub stop_transport-IsShut : (t : Option TcpTransport) → IsShut (stop_transport t)
unfolding stop_transport Server.stop
stop_transport-IsShut none = tt
stop_transport-IsShut (some t) = ground arith

pub length-nil : {A : Type 0} (xs : List A) → length xs ≡ 0 → xs ≡ []
length-nil [] e = refl
length-nil (x ∷ xs) e = absurd (omega arith)

pub stop_pool-IsEmptied : (p : Option ThreadPool) → IsTidy p → IsEmptied (stop_pool p)
unfolding stop_pool Pool.stop
stop_pool-IsEmptied none h = tt
stop_pool-IsEmptied (some p) h = ground (arith, length-nil p.threads)

pub stop-IsIdle : (n : WorkerNode) → IsTidy n.thread_pool → IsIdle (stop n)
unfolding stop Clock.stop
stop-IsIdle n h = record {
  running = refl;
  timer = ground arith;
  transport = stop_transport-IsShut n.transport;
  pool = stop_pool-IsEmptied n.thread_pool h;
}
