-- ===== src/Worker/Node/Places.antt =====
-- Where the tasks in a worker are, counted by their identifiers.
use rdma_ai_platform.Common.{
  ◌≤◌, ap, ◌≢◌, some_inj, ℕ, zero, suc, ◌+◌, ◌≡◌, refl, Option, none, some, List, [], ◌∷◌, ◌++◌,
  arith, get_elem?, set, replicate, if◌then◌else◌,
}
use rdma_ai_platform.Assoc.{contains}
use rdma_ai_platform.Text.{Text, text_eq}
use rdma_ai_platform.Worker.Node.{Node, Consumer, checks, executes, finishes}
use rdma_ai_platform.Worker.Task.{Task}

-- Whether a task has the identifier `k`, as a number.
abbrev pub is_id : Text → Text → ℕ
is_id k id = if text_eq id k then 1 else 0

abbrev pub in_handler : Text → Option Task → ℕ
in_handler k none = 0
in_handler k (some task) = is_id k task.id

abbrev pub in_queue : Text → List Task → ℕ
in_queue k [] = 0
in_queue k (task ∷ tasks) = is_id k task.id + in_queue k tasks

abbrev pub in_consumer : Text → Consumer → ℕ
in_consumer k (executes task) = is_id k task.id
in_consumer k (finishes id) = is_id k id
in_consumer k _ = 0

abbrev pub in_consumers : Text → List Consumer → ℕ
in_consumers k [] = 0
in_consumers k (c ∷ cs) = in_consumer k c + in_consumers k cs

-- How many tasks with the identifier `k` are in the worker: on the way into the queue, in it, and
-- at the consumers.
unfoldable pub in_flight : Text → Node → ℕ
in_flight k n = in_handler k n.handler + in_queue k n.task_queue.queue + in_consumers k n.consumers

-- Of each active identifier there is one task in the worker, and of any other none.
pub record Tracks (n : Node) : Type 0 where
  pub once : (k : Text) → in_flight k n ≡ (if contains k n.active_task_ids then 1 else 0)

pub in_queue-concat :
    (k : Text) (ts : List Task) (t : Task)
    → in_queue k (ts ++ t ∷ []) ≡ in_queue k ts + is_id k t.id
in_queue-concat k [] t = omega arith
in_queue-concat k (u ∷ ts) t = omega (arith, in_queue-concat k ts t)

pub in_consumers-set :
    (k : Text) (cs : List Consumer) (i : ℕ) (x c : Consumer)
    → get_elem? cs i ≡ some c
    → in_consumers k (set cs i x) + in_consumer k c ≡ in_consumers k cs + in_consumer k x
in_consumers-set k [] i x c e = cc
in_consumers-set k (d ∷ cs) zero x c e = rw (some_inj e) (omega arith)
in_consumers-set k (d ∷ cs) (suc i) x c e = omega (arith, in_consumers-set k cs i x c e)

pub in_consumers-replicate : (k : Text) (n : ℕ) → in_consumers k (replicate n checks) ≡ 0
in_consumers-replicate k zero = refl
in_consumers-replicate k (suc n) = omega (arith, in_consumers-replicate k n)

pub in_consumers-one :
    (k : Text) (cs : List Consumer) (i : ℕ) (a : Consumer)
    → get_elem? cs i ≡ some a
    → in_consumer k a ≤ in_consumers k cs
in_consumers-one k [] i a e = cc
in_consumers-one k (c ∷ cs) zero a e = rw (some_inj e) (omega arith)
in_consumers-one k (c ∷ cs) (suc i) a e = omega (arith, in_consumers-one k cs i a e)

-- Two places in a list of consumers hold what the list holds.
pub in_consumers-two :
    (k : Text) (cs : List Consumer) (i j : ℕ) (a b : Consumer)
    → get_elem? cs i ≡ some a
    → get_elem? cs j ≡ some b
    → i ≢ j
    → in_consumer k a + in_consumer k b ≤ in_consumers k cs
in_consumers-two k [] i j a b e f ne = cc
in_consumers-two k (c ∷ cs) zero zero a b e f ne = absurd (ne refl)
in_consumers-two k (c ∷ cs) zero (suc j) a b e f ne =
    rw (some_inj e) (omega (arith, in_consumers-one k cs j b f))
in_consumers-two k (c ∷ cs) (suc i) zero a b e f ne =
    rw (some_inj f) (omega (arith, in_consumers-one k cs i a e))
in_consumers-two k (c ∷ cs) (suc i) (suc j) a b e f ne =
    omega (arith, in_consumers-two k cs i j a b e f (λ same. ne (ap suc same)))
