-- ===== src/Rdma/CompletionQueue.antt =====
-- rdma/include/rdma/completion_queue.h and rdma/src/completion_queue.cpp. The methods run under
-- the queue's mutex and are one step each; `Poll` is the step at which its wait ends, with an
-- event there or with the time limit reached. `Push` also signals the bound channels.
pub mod Log
use rdma_ai_platform.Bounded.{push_bounded}
use rdma_ai_platform.Common.{
  ℕ, ◌≡◌, Bool, true, false, List, [], ◌∷◌, ◌++◌, Option, none, some, ◌==◌, ◌||◌, if◌then◌else◌,
  length,
}
use rdma_ai_platform.Rdma.Config.{CompletionQueueConfig}
use rdma_ai_platform.Rdma.EventChannel.{Channels, notify_all}
use rdma_ai_platform.Rdma.Types.{CompletionStatus, OperationType, WorkRequestId, TimePoint}
use rdma_ai_platform.Text.{Text}

pub record CompletionEvent : Type 0 where
  pub work_request_id : WorkRequestId
  pub status : CompletionStatus
  pub operation : OperationType
  pub source : Text
  pub destination : Text
  pub detail : Text
  pub completed_at : TimePoint
  pub bytes : ℕ

pub record CompletionQueue : Type 0 where
  pub config : CompletionQueueConfig
  pub queue : List CompletionEvent
  pub channels : List (Option ℕ)

-- The constructor.
unfoldable pub make : CompletionQueueConfig → CompletionQueue
make config = record { config = config; queue = []; channels = [] }

-- `std::find(...) != end()` on the pointers.
unfoldable pub is_bound : ℕ → List (Option ℕ) → Bool
is_bound i [] = false
is_bound i (none ∷ ps) = is_bound i ps
is_bound i (some j ∷ ps) = j == i || is_bound i ps

unfoldable pub bind : ℕ → CompletionQueue → CompletionQueue
unfolding is_bound
bind i q = if is_bound i q.channels then q else record q { channels = q.channels ++ some i ∷ [] }

unfoldable pub push : CompletionEvent → CompletionQueue → Channels → CompletionQueue × Channels
push event q cs =
    (record q { queue = push_bounded q.config.depth event q.queue }, notify_all q.channels cs)

-- The front of a queue, and what is left.
unfoldable pub pop_front {ℓ} : {A : Type ℓ} → List A → Option (A × List A)
pop_front [] = none
pop_front (x ∷ xs) = some (x, xs)

unfoldable pub poll : CompletionQueue → CompletionQueue × Option CompletionEvent
unfolding pop_front
poll q = elim (pop_front q.queue) [
  | none ↦ (q, none)
  | some (event, rest) ↦ (record q { queue = rest }, some event)
]

unfoldable pub depth : CompletionQueue → ℕ
depth q = length q.queue

unfoldable pub capacity : CompletionQueue → ℕ
capacity q = q.config.depth
