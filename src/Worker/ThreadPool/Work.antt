-- ===== src/Worker/ThreadPool/Work.antt =====
-- The work left in a pool that is stopping: each step of a thread that has not returned lessens it.
use rdma_ai_platform.Common.{
  if_true, if_false, some_inj, ℕ, zero, suc, ◌+◌, ◌*◌, ◌≤◌, ◌<◌, ◌≡◌, refl, sym, ap, subst, ◌≢◌,
  inl, inr, true, false, Option, none, some, List, [], ◌∷◌, arith, length, get_elem?, set,
  Bool-cases, get_elem?-set_ne, length-set,
}
use rdma_ai_platform.Worker.ThreadPool.{
  returned, runs, idle, take_task, advance, Thread, ThreadPool, worker_loop, has_returned,
}

-- The steps that a thread still has before it at most, in a pool without tasks.
abbrev pub steps_left : Thread → ℕ
steps_left returned = 0
steps_left idle = 1
steps_left (runs task) = 2

abbrev pub steps_left_all : List Thread → ℕ
steps_left_all [] = 0
steps_left_all (t ∷ ts) = steps_left t + steps_left_all ts

-- The work left in a pool that is stopping.
abbrev pub work : ThreadPool → ℕ
work p = 3 * length p.tasks + steps_left_all p.threads

steps_left_all-set :
    (ts : List Thread) (i : ℕ) (old new : Thread)
    → get_elem? ts i ≡ some old
    → steps_left_all (set ts i new) + steps_left old ≡ steps_left_all ts + steps_left new
steps_left_all-set [] i old new e = cc
steps_left_all-set (t ∷ ts) zero old new e =
    let same : t ≡ old = some_inj e in rw same (omega arith)
steps_left_all-set (t ∷ ts) (suc i) old new e = omega (arith, steps_left_all-set ts i old new e)

-- A thread that has not returned gets on with its work.
take_task-work :
    (i : ℕ) (tasks : List ℕ) (p : ThreadPool)
    → p.tasks ≡ tasks
    → p.stopping ≡ true
    → get_elem? p.threads i ≡ some idle
    → work (take_task i tasks p) < work p
unfolding take_task
take_task-work i [] p e stop at = ground (arith, steps_left_all-set p.threads i idle returned at)
take_task-work i (task ∷ rest) p e stop at =
    omega (arith, steps_left_all-set p.threads i idle (runs task) at, ap length e)

advance-work :
    (i : ℕ) (thread : Thread) (p : ThreadPool)
    → p.stopping ≡ true
    → get_elem? p.threads i ≡ some thread
    → has_returned thread ≡ false
    → work (advance i (some thread) p) < work p
unfolding advance
advance-work i idle p stop at w = take_task-work i p.tasks p refl stop at
advance-work i returned p stop at w = cc
advance-work i (runs task) p stop at w =
    omega (arith, steps_left_all-set p.threads i (runs task) idle at)

-- What a thread's step leaves alone.
pub record Keeps (i : ℕ) (p q : ThreadPool) : Type 0 where
  pub stops : q.stopping ≡ p.stopping
  pub stopper : q.stopper ≡ p.stopper
  pub as_many : length q.threads ≡ length p.threads
  pub others : (j : ℕ) → i ≢ j → get_elem? q.threads j ≡ get_elem? p.threads j

sets-Keeps :
    (i : ℕ) (x : Thread) (p : ThreadPool) (tasks : List ℕ)
    → Keeps i p (record p { tasks = tasks; threads = set p.threads i x })
sets-Keeps i x p tasks = record {
  stops = refl;
  stopper = refl;
  as_many = length-set p.threads i x;
  others = λ j ne. get_elem?-set_ne p.threads i j x ne;
}

same-Keeps : (i : ℕ) (p : ThreadPool) → Keeps i p p
same-Keeps i p = record { stops = refl; stopper = refl; as_many = refl; others = λ j ne. refl }

take_task-Keeps : (i : ℕ) (tasks : List ℕ) (p : ThreadPool) → Keeps i p (take_task i tasks p)
unfolding take_task
take_task-Keeps i [] p = elim (Bool-cases p.stopping) [
  | inl stop ↦ subst (Keeps i p) (sym (if_true _ _ _ stop)) (sets-Keeps i returned p p.tasks)
  | inr go ↦ subst (Keeps i p) (sym (if_false _ _ _ go)) (same-Keeps i p)
]
take_task-Keeps i (task ∷ rest) p = sets-Keeps i (runs task) p rest

advance-Keeps : (i : ℕ) (thread : Option Thread) (p : ThreadPool) → Keeps i p (advance i thread p)
unfolding advance
advance-Keeps i none p = same-Keeps i p
advance-Keeps i (some idle) p = take_task-Keeps i p.tasks p
advance-Keeps i (some returned) p = same-Keeps i p
advance-Keeps i (some (runs task)) p = sets-Keeps i idle p p.tasks

pub worker_loop-Keeps : (i : ℕ) (p : ThreadPool) → Keeps i p (worker_loop i p)
unfolding worker_loop
worker_loop-Keeps i p = advance-Keeps i (get_elem? p.threads i) p

pub worker_loop-work :
    (i : ℕ) (thread : Thread) (p : ThreadPool)
    → p.stopping ≡ true
    → get_elem? p.threads i ≡ some thread
    → has_returned thread ≡ false
    → work (worker_loop i p) < work p
unfolding worker_loop
worker_loop-work i thread p stop at w =
    subst (λ x. work (advance i x p) < work p) (sym at) (advance-work i thread p stop at w)

advance-work_le :
    (i : ℕ) (thread : Option Thread) (p : ThreadPool)
    → p.stopping ≡ true
    → get_elem? p.threads i ≡ thread
    → work (advance i thread p) ≤ work p
unfolding advance
advance-work_le i none p stop at = omega arith
advance-work_le i (some idle) p stop at = omega (arith, advance-work i idle p stop at refl)
advance-work_le i (some returned) p stop at = omega arith
advance-work_le i (some (runs task)) p stop at =
    omega (arith, advance-work i (runs task) p stop at refl)

-- A step of any thread adds no work.
pub worker_loop-work_le :
    (i : ℕ) (p : ThreadPool) → p.stopping ≡ true → work (worker_loop i p) ≤ work p
unfolding worker_loop
worker_loop-work_le i p stop = advance-work_le i (get_elem? p.threads i) p stop refl
