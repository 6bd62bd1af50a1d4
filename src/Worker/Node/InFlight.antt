-- ===== src/Worker/Node/InFlight.antt =====
-- The active identifiers of a worker against the tasks in it.
use rdma_ai_platform.Worker.Node.Places.{
  in_consumer, in_flight, Tracks, in_queue-concat, in_consumers-set, in_consumers-replicate,
  in_consumers-two,
}
use rdma_ai_platform.Common.{
  not, if_true, if_false, if_not-true, sym, ap, subst, ◌≢◌, Bool, true, false, Bool-cases, ℕ, ◌≡◌,
  refl, inl, inr, Option, none, some, List, [], ◌∷◌, arith, get_elem?, set, if◌then◌else◌,
  Option-cases,
}
use rdma_ai_platform.Assoc.{contains, contains-insert, contains-remove}
use rdma_ai_platform.Text.{Text, text_eq_iff, text_eq_refl}
use rdma_ai_platform.Worker.Node.{
  Node, Consumer, checks, polls, ended, executes, finishes, started_node, finish_task, mark_active,
  receive, settle, push_task, popped, advance, consume, clear_running, stop_queue,
}
use rdma_ai_platform.Worker.Task.{Task}
use rdma_ai_platform.Worker.TaskQueue.{push, wait_pop, pop_open, stop, empty_queue}

-- One step of the task server's thread, of a consumer, or of `stop`.
pub data Event : Type 0 where
  receives : Task → Event
  pushes clears stops_queue : Event
  consumes : ℕ → Event

unfoldable pub step : Event → Node → Node
step (receives task) n = receive task n
step pushes n = push_task n
step clears n = clear_running n
step stops_queue n = stop_queue n
step (consumes i) n = consume i n

unfoldable pub run : List Event → Node → Node
run [] n = n
run (e ∷ es) n = run es (step e n)

started-Tracks : (threads : ℕ) → Tracks (started_node threads)
unfolding started_node empty_queue in_flight contains
started-Tracks threads = record { once = λ k. omega (arith, in_consumers-replicate k threads) }

mark_active-Tracks :
    (task : Task) (n : Node) → n.handler ≡ none → Tracks n → Tracks (mark_active task n)
unfolding mark_active in_flight
mark_active-Tracks task n e v = elim (Bool-cases (contains task.id n.active_task_ids)) [
  | inl known ↦ rw known v
  | inr new ↦ rw new (record {
    once = λ k. ground (
      arith,
      e,
      v.once k,
      new,
      text_eq_iff task.id k,
      contains-insert task.id k n.active_task_ids,
    );
  })
]

receive-Tracks : (task : Task) (n : Node) → Tracks n → Tracks (receive task n)
unfolding receive
receive-Tracks task n v = elim (Option-cases n.handler) [
  | inr (busy, e) ↦ rw (e, receive) v
  | inl free ↦ elim (Bool-cases n.running) [
    | inl on ↦
        rw (free, receive)
          (subst Tracks (sym (if_not-true n.running _ _ on)) (mark_active-Tracks task n free v))
    | inr off ↦ rw (free, receive) (subst Tracks (sym (if_true (not n.running) _ _ (ap not off))) v)
  ]
]

push-Tracks : (n : Node) → Tracks n → Tracks (push_task n)
unfolding push_task settle finish_task push in_flight
push-Tracks n v = elim (Option-cases n.handler) [
  | inl free ↦ rw (free, push_task) v
  | inr (task, e) ↦ elim (Bool-cases n.task_queue.stopped) [
    | inl halted ↦
        rw (e, push_task)
          (rw halted (record {
            once = λ k. ground (
              arith,
              e,
              v.once k,
              text_eq_iff task.id k,
              contains-remove task.id k n.active_task_ids,
            );
          }))
    | inr open_queue ↦
        rw (e, push_task)
          (rw open_queue (record {
            once = λ k. ground (arith, e, v.once k, in_queue-concat k n.task_queue.queue task);
          }))
  ]
]

-- A consumer that goes from one place to another without a task.
moves-Tracks :
    (i : ℕ) (c x : Consumer) (n : Node)
    → get_elem? n.consumers i ≡ some c
    → ((k : Text) → in_consumer k c ≡ in_consumer k x)
    → Tracks n
    → Tracks (record n { consumers = set n.consumers i x })
unfolding in_flight
moves-Tracks i c x n e same v = record {
  once = λ k. omega (arith, v.once k, same k, in_consumers-set k n.consumers i x c e);
}

finishes-Tracks :
    (i : ℕ) (id : Text) (n : Node)
    → get_elem? n.consumers i ≡ some (finishes id)
    → Tracks n
    → Tracks (finish_task id (record n { consumers = set n.consumers i checks }))
unfolding finish_task in_flight
finishes-Tracks i id n e v = record {
  once = λ k. ground (
    arith,
    v.once k,
    in_consumers-set k n.consumers i checks (finishes id) e,
    contains-remove id k n.active_task_ids,
    text_eq_iff id k,
  );
}

pops-Tracks :
    (i : ℕ) (tasks : List Task) (n : Node)
    → get_elem? n.consumers i ≡ some polls
    → n.task_queue.queue ≡ tasks
    → Tracks n
    → Tracks (popped i n (pop_open tasks n.task_queue))
unfolding popped pop_open in_flight
pops-Tracks i [] n e q v = v
pops-Tracks i (task ∷ rest) n e q v = record {
  once = λ k.
      omega (arith, rw q at v.once k, in_consumers-set k n.consumers i (executes task) polls e);
}

wait-Tracks :
    (i : ℕ) (n : Node)
    → get_elem? n.consumers i ≡ some polls
    → Tracks n
    → Tracks (popped i n (wait_pop n.task_queue))
unfolding wait_pop popped
wait-Tracks i n e v = elim (Bool-cases n.task_queue.stopped) [
  | inl halted ↦
      subst (λ r. Tracks (popped i n r)) (sym (if_true _ _ _ halted))
        (moves-Tracks i polls ended n e (λ k. refl) v)
  | inr open_queue ↦
      subst (λ r. Tracks (popped i n r)) (sym (if_false _ _ _ open_queue))
        (pops-Tracks i n.task_queue.queue n e refl v)
]

checked : (b : Bool) (k : Text) → 0 ≡ in_consumer k (if b then polls else ended)
checked true k = refl
checked false k = refl

advance-Tracks :
    (i : ℕ) (c : Option Consumer) (n : Node)
    → get_elem? n.consumers i ≡ c
    → Tracks n
    → Tracks (advance i c n)
unfolding advance in_flight
advance-Tracks i none n e v = v
advance-Tracks i (some checks) n e v =
    moves-Tracks i checks (if n.running then polls else ended) n e (checked n.running) v
advance-Tracks i (some polls) n e v = wait-Tracks i n e v
advance-Tracks i (some (executes task)) n e v =
    let moved = moves-Tracks i (executes task) (finishes task.id) n e (λ k. refl) v in
    record { once = moved.once }
advance-Tracks i (some (finishes id)) n e v = finishes-Tracks i id n e v
advance-Tracks i (some ended) n e v = v

step-Tracks : (e : Event) (n : Node) → Tracks n → Tracks (step e n)
unfolding step consume clear_running stop_queue stop in_flight
step-Tracks (receives task) n v = receive-Tracks task n v
step-Tracks pushes n v = push-Tracks n v
step-Tracks clears n v = record { once = v.once }
step-Tracks stops_queue n v = record { once = v.once }
step-Tracks (consumes i) n v = advance-Tracks i (get_elem? n.consumers i) n refl v

run-steps : (es : List Event) (n : Node) → Tracks n → Tracks (run es n)
unfolding run
run-steps [] n v = v
run-steps (e ∷ es) n v = run-steps es (step e n) (step-Tracks e n v)

-- However the task server, the consumers and a stop interleave from the start of the node on, of
-- each active identifier there is exactly one task in the worker, and of any other none: no task
-- that is marked active is lost or doubled.
pub run-Tracks : (threads : ℕ) (es : List Event) → Tracks (run es (started_node threads))
run-Tracks threads es = run-steps es (started_node threads) (started-Tracks threads)

-- Two consumers never execute tasks of one identifier at the same time.
pub run-executes :
    (threads : ℕ) (es : List Event) (i j : ℕ) (a b : Task)
    → get_elem? (run es (started_node threads)).consumers i ≡ some (executes a)
    → get_elem? (run es (started_node threads)).consumers j ≡ some (executes b)
    → i ≢ j
    → a.id ≢ b.id
unfolding in_flight
run-executes threads es i j a b e f ne same =
    let n = run es (started_node threads) in
    absurd (
      ground (
        arith,
        (run-Tracks threads es).once a.id,
        in_consumers-two a.id n.consumers i j (executes a) (executes b) e f ne,
        text_eq_refl a.id,
        (text_eq_iff b.id a.id).1 (sym same),
      ))
