-- ===== src/Worker/Node/Reports.antt =====
-- The results that a worker reports against the tasks that it accepted.
use rdma_ai_platform.Common.{
  Bool, true, false, Option, not, if_true, if_false, if_not-true, ap, ◌∙◌, Bool-cases, ℕ, ◌≡◌, ◌+◌,
  refl, inl, inr, none, some, List, [], ◌∷◌, ◌++◌, arith, get_elem?, set, if◌then◌else◌,
  Option-cases, suc, zero, some_inj, replicate,
}
use rdma_ai_platform.Assoc.{contains}
use rdma_ai_platform.Worker.Executor.{execute}
use rdma_ai_platform.Worker.Node.InFlight.{
  Event, receives, pushes, clears, stops_queue, consumes, step, run,
}
use rdma_ai_platform.Worker.Node.{
  consume, stop, stop_queue, clear_running, finishes, ended, empty_queue, started_node, wait_pop,
  advance, popped, polls, Node, Consumer, checks, executes, finish_task, mark_active, receive,
  settle, push_task,
}
use rdma_ai_platform.Worker.Task.{Task, TaskResult}
use rdma_ai_platform.Worker.TaskQueue.{push, wait_pop, pop_open, stop, empty_queue}

-- Results are weighed by `w`: sums that agree for every `w` are sums over the same results, each as
-- often.
module _ (w : TaskResult → ℕ) where
  abbrev pub reported : List TaskResult → ℕ
  reported [] = 0
  reported (r ∷ rs) = w r + reported rs

  -- The results that the tasks in the queue will have.
  abbrev pub queued : List Task → ℕ
  queued [] = 0
  queued (task ∷ tasks) = w (execute task) + queued tasks

  abbrev pub executing : Consumer → ℕ
  executing (executes task) = w (execute task)
  executing _ = 0

  abbrev pub all_executing : List Consumer → ℕ
  all_executing [] = 0
  all_executing (c ∷ cs) = executing c + all_executing cs

  -- The results reported and those still to come.
  abbrev pub in_all : Node → ℕ
  in_all n = reported n.reports + queued n.task_queue.queue + all_executing n.consumers

  -- The result of the task that a push of `enqueueTask` puts into the queue.
  abbrev pub accepted : Node → ℕ
  accepted n = elim n.handler [
    | none ↦ 0
    | some task ↦ if (push task n.task_queue).1 then w (execute task) else 0
  ]

  -- The results of all tasks that the pushes of a run put into the queue.
  abbrev pub accepted_in : List Event → Node → ℕ
  accepted_in [] n = 0
  accepted_in (pushes ∷ es) n = accepted n + accepted_in es (step pushes n)
  accepted_in (e ∷ es) n = accepted_in es (step e n)

  reported-concat :
      (rs : List TaskResult) (r : TaskResult) → reported (rs ++ r ∷ []) ≡ reported rs + w r
  reported-concat [] r = omega arith
  reported-concat (x ∷ rs) r = omega (arith, reported-concat rs r)

  queued-concat : (ts : List Task) (t : Task) → queued (ts ++ t ∷ []) ≡ queued ts + w (execute t)
  queued-concat [] t = omega arith
  queued-concat (u ∷ ts) t = omega (arith, queued-concat ts t)

  all_executing-set :
      (cs : List Consumer) (i : ℕ) (x c : Consumer)
      → get_elem? cs i ≡ some c
      → all_executing (set cs i x) + executing c ≡ all_executing cs + executing x
  all_executing-set [] i x c e = cc
  all_executing-set (d ∷ cs) zero x c e = rw (some_inj e) (omega arith)
  all_executing-set (d ∷ cs) (suc i) x c e = omega (arith, all_executing-set cs i x c e)

  all_executing-replicate : (n : ℕ) → all_executing (replicate n checks) ≡ 0
  all_executing-replicate zero = refl
  all_executing-replicate (suc n) = omega (arith, all_executing-replicate n)

  mark_active-in_all : (task : Task) (n : Node) → in_all (mark_active task n) ≡ in_all n
  unfolding mark_active
  mark_active-in_all task n = elim (Bool-cases (contains task.id n.active_task_ids)) [
    | inl known ↦ ap in_all (if_true _ _ _ known)
    | inr new ↦ ap in_all (if_false _ _ _ new)
  ]

  receive-in_all : (task : Task) (n : Node) → in_all (receive task n) ≡ in_all n
  unfolding receive
  receive-in_all task n = elim (Option-cases n.handler) [
    | inr (busy, e) ↦ rw (e, receive) refl
    | inl free ↦
        rw (free, receive)
          (elim (Bool-cases n.running) [
            | inl on ↦ ap in_all (if_not-true n.running _ _ on) ∙ mark_active-in_all task n
            | inr off ↦ ap in_all (if_true (not n.running) _ _ (ap not off))
          ])
  ]

  push-in_all : (n : Node) → in_all (push_task n) ≡ in_all n + accepted n
  unfolding push_task settle finish_task push
  push-in_all n = elim (Option-cases n.handler) [
    | inl free ↦ rw (free, push_task) (omega arith)
    | inr (task, e) ↦ elim (Bool-cases n.task_queue.stopped) [
      | inl halted ↦ rw (e, push_task) (rw halted (omega arith))
      | inr open_queue ↦
          rw (e, push_task) (rw open_queue (omega (arith, queued-concat n.task_queue.queue task)))
    ]
  ]

  moves-in_all :
      (i : ℕ) (c x : Consumer) (n : Node)
      → get_elem? n.consumers i ≡ some c
      → executing c ≡ executing x
      → in_all (record n { consumers = set n.consumers i x }) ≡ in_all n
  moves-in_all i c x n e same = omega (arith, same, all_executing-set n.consumers i x c e)

  pops-in_all :
      (i : ℕ) (tasks : List Task) (n : Node)
      → get_elem? n.consumers i ≡ some polls
      → n.task_queue.queue ≡ tasks
      → in_all (popped i n (pop_open tasks n.task_queue)) ≡ in_all n
  unfolding popped pop_open
  pops-in_all i [] n e q = refl
  pops-in_all i (task ∷ rest) n e q =
      omega (arith, ap queued q, all_executing-set n.consumers i (executes task) polls e)

  wait-in_all :
      (i : ℕ) (n : Node)
      → get_elem? n.consumers i ≡ some polls
      → in_all (popped i n (wait_pop n.task_queue)) ≡ in_all n
  unfolding wait_pop popped
  wait-in_all i n e = elim (Bool-cases n.task_queue.stopped) [
    | inl halted ↦
        ap (λ r. in_all (popped i n r)) (if_true _ _ _ halted) ∙ moves-in_all i polls ended n e refl
    | inr open_queue ↦
        ap (λ r. in_all (popped i n r)) (if_false _ _ _ open_queue)
        ∙ pops-in_all i n.task_queue.queue n e refl
  ]

  idle_place : (b : Bool) → 0 ≡ executing (if b then polls else ended)
  idle_place true = refl
  idle_place false = refl

  advance-in_all :
      (i : ℕ) (c : Option Consumer) (n : Node)
      → get_elem? n.consumers i ≡ c
      → in_all (advance i c n) ≡ in_all n
  unfolding advance finish_task
  advance-in_all i none n e = refl
  advance-in_all i (some checks) n e =
      moves-in_all i checks (if n.running then polls else ended) n e (idle_place n.running)
  advance-in_all i (some polls) n e = wait-in_all i n e
  advance-in_all i (some (executes task)) n e = omega (
    arith,
    reported-concat n.reports (execute task),
    all_executing-set n.consumers i (finishes task.id) (executes task) e,
  )
  advance-in_all i (some (finishes id)) n e = moves-in_all i (finishes id) checks n e refl
  advance-in_all i (some ended) n e = refl

  clear_running-in_all : (n : Node) → in_all (clear_running n) ≡ in_all n
  unfolding clear_running
  clear_running-in_all n = refl

  stop_queue-in_all : (n : Node) → in_all (stop_queue n) ≡ in_all n
  unfolding stop_queue stop
  stop_queue-in_all n = refl

  consume-in_all : (i : ℕ) (n : Node) → in_all (consume i n) ≡ in_all n
  unfolding consume
  consume-in_all i n = advance-in_all i (get_elem? n.consumers i) n refl

  run-in_all : (es : List Event) (n : Node) → in_all (run es n) ≡ in_all n + accepted_in es n
  unfolding run step
  run-in_all [] n = omega arith
  run-in_all (receives task ∷ es) n =
      omega (arith, run-in_all es (receive task n), receive-in_all task n)
  run-in_all (pushes ∷ es) n = omega (arith, run-in_all es (push_task n), push-in_all n)
  run-in_all (clears ∷ es) n =
      omega (arith, run-in_all es (clear_running n), clear_running-in_all n)
  run-in_all (stops_queue ∷ es) n = omega (arith, run-in_all es (stop_queue n), stop_queue-in_all n)
  run-in_all (consumes i ∷ es) n = omega (arith, run-in_all es (consume i n), consume-in_all i n)

  started-in_all : (threads : ℕ) → in_all (started_node threads) ≡ 0
  unfolding started_node empty_queue
  started-in_all threads = omega (arith, all_executing-replicate threads)

  -- However the task server, the consumers and a stop interleave from the start of the node on:
  -- what is reported, with the results of the tasks that are in the queue and of those that are
  -- being executed, is the results of all tasks that were accepted into the queue, each exactly as
  -- often, since every weighing of results gives the same sum on both sides. So no accepted task is
  -- lost, none is reported twice, and nothing else is reported.
  pub run-reported :
      (threads : ℕ) (es : List Event)
      → let n = run es (started_node threads) in
        reported n.reports + queued n.task_queue.queue + all_executing n.consumers
        ≡ accepted_in es (started_node threads)
  run-reported threads es =
      omega (arith, run-in_all es (started_node threads), started-in_all threads)
