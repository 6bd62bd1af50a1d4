-- ===== src/Worker/WorkerNode/Lifecycle.antt =====
-- What runs after the starts and stops of a worker.
use rdma_ai_platform.Worker.WorkerNode.Starting.{Outcome, start_loaded-Outcome}
use rdma_ai_platform.Worker.WorkerNode.Running.{
  IsEmptied, IsManned, IsTidy, IsIdle, IsUp, stop-IsIdle,
}
use rdma_ai_platform.Common.{
  sym, subst, refl, ◌⊎◌, inl, inr, Bool, Option, none, some, List, [], ◌∷◌, ℕ, if_true, if_false,
}
use rdma_ai_platform.Worker.ThreadPool.{ThreadPool}
use rdma_ai_platform.Worker.Timer as Clock
use rdma_ai_platform.Worker.WorkerNode.{
  start, load_config, new_node, WorkerNode, Environment, stop, to_size, rounds_to,
}

-- A start of an idle worker succeeds with every part running, or fails, wherever it does, with
-- nothing left running.
pub start-Outcome : (e : Environment) (n : WorkerNode) → IsIdle n → Outcome (start e n)
unfolding start
start-Outcome e n v =
    subst Outcome (sym (if_false _ _ _ v.running))
      (start_loaded-Outcome e n (load_config e.file n.config) v)

pub data Call : Type 0 where
  starts : Environment → Call
  stop_calls : Call

unfoldable pub call : Call → WorkerNode → WorkerNode
call (starts e) n = (start e n).0
call stop_calls n = stop n

unfoldable pub call_each : List Call → WorkerNode → WorkerNode
call_each [] n = n
call_each (c ∷ cs) n = call_each cs (call c n)

-- A worker between calls: with its flag set all of it runs, and otherwise nothing of it.
abbrev pub IsSettled : WorkerNode → Type 0
IsSettled n = IsUp n ⊎ IsIdle n

pub settled-IsTidy : (n : WorkerNode) → IsSettled n → IsTidy n.thread_pool
settled-IsTidy n (inl up) =
    tidy (to_size n.config.threads) (rounds_to n.config.threads) n.thread_pool up.pool
  where
    tidy : (k j : ℕ) (p : Option ThreadPool) → IsManned k j p → IsTidy p
    tidy k j none h = absurd h
    tidy k j (some p) h = λ off. cc (h.0)
settled-IsTidy n (inr v) = tidy n.thread_pool v.pool
  where
    tidy : (p : Option ThreadPool) → IsEmptied p → IsTidy p
    tidy none h = tt
    tidy (some p) h = λ off. h.2

Outcome-IsSettled : (r : WorkerNode × Bool) → Outcome r → IsSettled r.0
Outcome-IsSettled r (inl (_, up)) = inl up
Outcome-IsSettled r (inr (_, down)) = inr down

call-IsSettled : (c : Call) (n : WorkerNode) → IsSettled n → IsSettled (call c n)
unfolding call start
call-IsSettled (starts e) n (inl up) =
    subst (λ (r : WorkerNode × Bool). IsSettled r.0) (sym (if_true _ _ _ up.running)) (inl up)
call-IsSettled (starts e) n (inr down) = Outcome-IsSettled (start e n) (start-Outcome e n down)
call-IsSettled stop_calls n v = inr (stop-IsIdle n (settled-IsTidy n v))

pub call_each-steps : (cs : List Call) (n : WorkerNode) → IsSettled n → IsSettled (call_each cs n)
unfolding call_each
call_each-steps [] n v = v
call_each-steps (c ∷ cs) n v = call_each-steps cs (call c n) (call-IsSettled c n v)

pub new_node-IsIdle : IsIdle new_node
unfolding new_node Clock.new_timer
new_node-IsIdle = record { running = refl; timer = (refl, refl); transport = tt; pool = tt }

-- After any starts and stops of a new worker, whatever the system and the scheduler answer, either
-- all of it runs (the heartbeat, the listening socket with its thread, and a pool with as many
-- threads as configured, to which as many consumers were handed) or nothing of it.
pub call_each-IsSettled : (cs : List Call) → IsSettled (call_each cs new_node)
call_each-IsSettled cs = call_each-steps cs new_node (inr new_node-IsIdle)
