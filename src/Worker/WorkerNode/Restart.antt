-- ===== src/Worker/WorkerNode/Restart.antt =====
-- Starting a worker again that was stopped.
use rdma_ai_platform.Common.{
  ◌≡◌, refl, ap, sym, subst, Bool, true, false, List, [], ◌∷◌, inl, inr, Bool-cases, if_true,
  if_false,
}
use rdma_ai_platform.Worker.Config.{WorkerConfig, load_config}
use rdma_ai_platform.Worker.WorkerNode.Lifecycle.{
  IsSettled, start-Outcome, call_each-steps, call_each-IsSettled, settled-IsTidy, Call, starts,
  stop_calls, call, call_each,
}
use rdma_ai_platform.Worker.WorkerNode.Running.{IsUp, stop-IsIdle}
use rdma_ai_platform.Worker.WorkerNode.Starting.{start_consumers-outcome}
use rdma_ai_platform.Worker.WorkerNode.{
  new_node, WorkerNode, Environment, stop, start_task_server, start_consumers,
  register_to_scheduler, start_heartbeat, proceed, start_parts, start_loaded, start,
}
use rdma_ai_platform.Worker.SchedulerClient.{configure}
use rdma_ai_platform.Worker.Task.{Task}
use rdma_ai_platform.Worker.TaskQueue.{TaskQueue, push}
use rdma_ai_platform.Worker.TaskQueue as Queue

abbrev Refuses : WorkerNode → Type 0
Refuses n = n.task_queue.stopped ≡ true

stop-Refuses : (n : WorkerNode) → Refuses (stop n)
unfolding stop Queue.stop
stop-Refuses n = refl

proceed-Refuses :
    (r : WorkerNode × Bool) (next : WorkerNode → WorkerNode × Bool)
    → (r.1 ≡ true → Refuses (next r.0).0)
    → Refuses (proceed r next).0
unfolding proceed
proceed-Refuses (n, true) next go = go refl
proceed-Refuses (n, false) next go = stop-Refuses n

start_consumers-Refuses :
    (e : Environment) (n : WorkerNode) → Refuses n → Refuses (start_consumers e n).0
start_consumers-Refuses e n h =
    let (p, o) = start_consumers-outcome e n in
    elim o [
      | inl (ok, _) ↦ subst (λ (r : WorkerNode × Bool). Refuses r.0) (sym ok) h
      | inr (failed, _) ↦ subst (λ (r : WorkerNode × Bool). Refuses r.0) (sym failed) h
    ]

start_parts-Refuses : (e : Environment) (n : WorkerNode) → Refuses n → Refuses (start_parts e n).0
unfolding start_parts start_task_server register_to_scheduler start_heartbeat
start_parts-Refuses e n h = proceed-Refuses (start_task_server e n) _ (λ opened.
    proceed-Refuses (start_consumers e (start_task_server e n).0) _ (λ manned.
      let fed = start_consumers-Refuses e (start_task_server e n).0 h in
      proceed-Refuses (register_to_scheduler e (start_consumers e (start_task_server e n).0).0) _
        (λ known.
          proceed-Refuses (start_heartbeat (start_consumers e (start_task_server e n).0).0) _
            (λ beats. fed))))

start_loaded-Refuses :
    (e : Environment) (n : WorkerNode) (r : WorkerConfig × Bool)
    → Refuses n
    → Refuses (start_loaded e n r).0
unfolding start_loaded
start_loaded-Refuses e n (config, false) h = h
start_loaded-Refuses e n (config, true) h =
    start_parts-Refuses e
      (record n {
        config = config;
        scheduler_client = configure config.scheduler_addr config.worker_id n.scheduler_client;
        running = true;
      })
      h

start-Refuses : (e : Environment) (n : WorkerNode) → Refuses n → Refuses (start e n).0
unfolding start
start-Refuses e n h = elim (Bool-cases n.running) [
  | inl on ↦ subst (λ (r : WorkerNode × Bool). Refuses r.0) (sym (if_true _ _ _ on)) h
  | inr off ↦
      subst (λ (r : WorkerNode × Bool). Refuses r.0) (sym (if_false _ _ _ off))
        (start_loaded-Refuses e n (load_config e.file n.config) h)
]

-- A start that returns true leaves all of a settled worker running.
start-IsUp :
    (e : Environment) (n : WorkerNode) → IsSettled n → (start e n).1 ≡ true → IsUp (start e n).0
unfolding start
start-IsUp e n (inl up) ok =
    subst (λ (r : WorkerNode × Bool). IsUp r.0) (sym (if_true _ _ _ up.running)) up
start-IsUp e n (inr down) ok = elim (start-Outcome e n down) [
  | inl (_, up) ↦ up
  | inr (failed, _) ↦ cc (ok, failed)
]

call-Refuses : (c : Call) (n : WorkerNode) → Refuses n → Refuses (call c n)
unfolding call
call-Refuses (starts e) n h = start-Refuses e n h
call-Refuses stop_calls n h = stop-Refuses n

call_each-Refuses : (cs : List Call) (n : WorkerNode) → Refuses n → Refuses (call_each cs n)
unfolding call_each
call_each-Refuses [] n h = h
call_each-Refuses (c ∷ cs) n h = call_each-Refuses cs (call c n) (call-Refuses c n h)

-- A start that returns true on a worker that was stopped before, after whatever calls in between:
-- all of the worker runs, and yet it refuses every task, since its task queue stays stopped and a
-- stopped queue takes nothing in.
pub start-stop_refuses :
    (before between : List Call) (e : Environment) (task : Task)
    → (start e (call_each between (stop (call_each before new_node)))).1 ≡ true
    → let n = (start e (call_each between (stop (call_each before new_node)))).0 in
      IsUp n × ((push task n.task_queue).1 ≡ false)
unfolding push
start-stop_refuses before between e task ok =
    let stopped = stop (call_each before new_node) in
    let idle =
      stop-IsIdle (call_each before new_node)
        (settled-IsTidy (call_each before new_node) (call_each-IsSettled before)) in
    let m = call_each between stopped in
    let settled = call_each-steps between stopped (inr idle) in
    let refused = start-Refuses e m (call_each-Refuses between stopped (stop-Refuses _)) in
    (start-IsUp e m settled ok, ap (λ (r : TaskQueue × Bool). r.1) (if_true _ _ _ refused))
