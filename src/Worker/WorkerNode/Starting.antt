-- ===== src/Worker/WorkerNode/Starting.antt =====
-- How a start of a worker ends.
use rdma_ai_platform.Worker.WorkerNode.Running.{
  IsOpen, IsEmptied, IsManned, IsTidy, IsIdle, IsUp, stop-IsIdle,
}
use rdma_ai_platform.Common.{
  ◌+◌, length, length-append, sym, subst, if_not-true, ◌≡◌, refl, ap, ◌∙◌, ◌⊎◌, inl, inr, Bool,
  true, false, not, ◌||◌, Option, none, some, [], ◌∷◌, ◌++◌, arith, ℕ, zero, suc, replicate,
  if_true, if_false,
}
use rdma_ai_platform.Worker.SchedulerClient.{configure}
use rdma_ai_platform.Worker.TcpTransport as Server
use rdma_ai_platform.Worker.TcpTransport.{TcpTransport, new_transport, Calls}
use rdma_ai_platform.Worker.ThreadPool as Pool
use rdma_ai_platform.Worker.ThreadPool.{ThreadPool, enqueue, idle, make}
use rdma_ai_platform.Worker.Timer as Clock
use rdma_ai_platform.Worker.WorkerNode.{
  WorkerConfig, start_task_server, start_loaded, start_parts, WorkerNode, Environment, to_size,
  rounds_to, enqueue_consumers, start_consumers, register_to_scheduler, start_heartbeat, proceed,
}

-- How a start ends.
abbrev pub Outcome : WorkerNode × Bool → Type 0
Outcome r = ((r.1 ≡ true) × IsUp r.0) ⊎ ((r.1 ≡ false) × IsIdle r.0)

pub proceed-Outcome :
    (r : WorkerNode × Bool) (next : WorkerNode → WorkerNode × Bool)
    → IsTidy r.0.thread_pool
    → (r.1 ≡ true → Outcome (next r.0))
    → Outcome (proceed r next)
unfolding proceed
proceed-Outcome (n, true) next h go = go refl
proceed-Outcome (n, false) next h go = inr (refl, stop-IsIdle n h)

pub server_start-IsOpen :
    (k : Calls)
    → (Server.start k new_transport).1 ≡ true
    → IsOpen (some (Server.start k new_transport).0)
unfolding Server.start new_transport
server_start-IsOpen k h = ground arith

pub enqueue_started :
    (n : ℕ) (p : ThreadPool)
    → p.started ≡ true
    → p.stopping ≡ false
    → enqueue n p ≡ (record p { tasks = p.tasks ++ n ∷ [] }, true)
unfolding enqueue
enqueue_started n p on going = if_false (not p.started || p.stopping) _ _ (ground arith)

-- A pool that runs takes every consumer.
pub enqueue_consumers-IsManned :
    (n k handed : ℕ) (p : ThreadPool)
    → p.started ≡ true
    → p.stopping ≡ false
    → p.threads ≡ replicate k idle
    → length p.tasks ≡ handed
    → ((enqueue_consumers n p).1 ≡ true) × IsManned k (handed + n) (some (enqueue_consumers n p).0)
unfolding enqueue_consumers
enqueue_consumers-IsManned zero k handed p on going h tasks = (refl, (on, h, omega (arith, tasks)))
enqueue_consumers-IsManned (suc n) k handed p on going h tasks = rw (enqueue_started n p on going) (
    subst
      (λ m.
        ((enqueue_consumers n (record p { tasks = p.tasks ++ n ∷ [] })).1 ≡ true)
        × IsManned k m (some (enqueue_consumers n (record p { tasks = p.tasks ++ n ∷ [] })).0))
      (omega arith)
      (enqueue_consumers-IsManned n k (suc handed) (record p { tasks = p.tasks ++ n ∷ [] }) on going
        h (omega (arith, tasks, length-append p.tasks (n ∷ [])))))

-- A pool that has just been made and started: all its threads wait, or nothing is left of it.
pub pool_start-outcome :
    (made n : ℕ)
    → let r = Pool.start made (make n) in
      ((r.1 ≡ true)
        × (r.0.started ≡ true)
        × (r.0.stopping ≡ false)
        × (r.0.threads ≡ replicate n idle)
        × (length r.0.tasks ≡ 0))
      ⊎ ((r.1 ≡ false) × IsTidy (some r.0))
unfolding Pool.start Pool.stop make
pool_start-outcome made n = ground arith

pub start_consumers-outcome :
    (e : Environment) (n : WorkerNode)
    → (p : ThreadPool) × (((start_consumers e n ≡ (record n { thread_pool = some p }, true))
          × IsManned (to_size n.config.threads) (rounds_to n.config.threads) (some p))
        ⊎ ((start_consumers e n ≡ (record n { thread_pool = some p }, false)) × IsTidy (some p)))
unfolding start_consumers
start_consumers-outcome e n =
    let k = to_size n.config.threads in
    let r = Pool.start e.threads (make k) in
    let q = enqueue_consumers (rounds_to n.config.threads) r.0 in
    elim (pool_start-outcome e.threads k) [
      | inl (ok, on, going, threads, none_yet) ↦
          let (queued, manned) =
            enqueue_consumers-IsManned (rounds_to n.config.threads) k 0 r.0 on going threads
              none_yet in
          (
            q.0,
            inl (
              if_not-true r.1 _ _ ok ∙ ap (λ b. (record n { thread_pool = some q.0 }, b)) queued,
              subst (λ m. IsManned k m (some q.0)) (omega arith) manned,
            ),
          )
      | inr (failed, tidy) ↦ (r.0, inr (if_true (not r.1) _ _ (ap not failed), tidy))
    ]

-- The last two steps of the `try` block.
pub last_steps :
    (e : Environment) (n : WorkerNode)
    → n.running ≡ true
    → IsOpen n.transport
    → IsManned (to_size n.config.threads) (rounds_to n.config.threads) n.thread_pool
    → IsTidy n.thread_pool
    → Outcome
        (proceed (register_to_scheduler e n) (λ m. proceed (start_heartbeat m) (λ l. (l, true))))
unfolding register_to_scheduler start_heartbeat Clock.start Clock.stop
last_steps e n on server pool tidy =
    proceed-Outcome (register_to_scheduler e n) (λ m. proceed (start_heartbeat m) (λ l. (l, true)))
      tidy
      (λ registered.
        proceed-Outcome (start_heartbeat n) (λ l. (l, true)) tidy
          (λ beats.
            inl (
              refl,
              record { running = on; timer = ground arith; transport = server; pool = pool },
            )))

pub consumers_step :
    (e : Environment) (n : WorkerNode)
    → n.running ≡ true
    → IsOpen n.transport
    → Outcome (
        proceed (start_consumers e n) (λ m2.
          proceed
            (register_to_scheduler e m2)
            (λ m3. proceed (start_heartbeat m3) (λ m4. (m4, true)))))
unfolding proceed
consumers_step e n on server =
    let (p, o) = start_consumers-outcome e n in
    elim o [
      | inl (ok, manned) ↦
          subst
            (λ r. Outcome (
              proceed r (λ m2.
                proceed (register_to_scheduler e m2)
                  (λ m3. proceed (start_heartbeat m3) (λ m4. (m4, true))))))
            (sym ok)
            (last_steps e (record n { thread_pool = some p }) on server manned
              (λ off. cc (manned.0)))
      | inr (failed, tidy) ↦
          subst
            (λ r. Outcome (
              proceed r (λ m2.
                proceed (register_to_scheduler e m2)
                  (λ m3. proceed (start_heartbeat m3) (λ m4. (m4, true))))))
            (sym failed) (inr (refl, stop-IsIdle (record n { thread_pool = some p }) tidy))
    ]

pub start_parts-Outcome :
    (e : Environment) (n : WorkerNode)
    → n.running ≡ true
    → IsTidy n.thread_pool
    → Outcome (start_parts e n)
unfolding start_parts start_task_server
start_parts-Outcome e n on tidy =
    proceed-Outcome (start_task_server e n) _ tidy
      (λ opened. consumers_step e (start_task_server e n).0 on (server_start-IsOpen e.calls opened))

pub start_loaded-Outcome :
    (e : Environment) (n : WorkerNode) (r : WorkerConfig × Bool)
    → IsIdle n
    → Outcome (start_loaded e n r)
unfolding start_loaded
start_loaded-Outcome e n (config, false) v =
    inr (
      refl,
      record { running = v.running; timer = v.timer; transport = v.transport; pool = v.pool },
    )
start_loaded-Outcome e n (config, true) v =
    start_parts-Outcome e
      (record n {
        config = config;
        scheduler_client = configure config.scheduler_addr config.worker_id n.scheduler_client;
        running = true;
      })
      refl (emptied n.thread_pool v.pool)
  where
    emptied : (p : Option ThreadPool) → IsEmptied p → IsTidy p
    emptied none h = tt
    emptied (some p) h = λ off. h.2
