-- ===== src/Rdma/CompletionQueue/Log.antt =====
-- A completion queue against the log of all events that were pushed into it.
use rdma_ai_platform.Bounded.{
  keep_last_all, push_all, push_bounded, push_all-nil, push_all_unbounded, length-push_bounded,
  keep_last,
}
use rdma_ai_platform.Common.{
  false, ltb, lt→ltb, dec_lt, if_true, if_false, if◌then◌else◌, sym, refl, ◌∙◌, ap, ℕ, ◌≤◌, ◌<◌,
  ◌≡◌, List, [], ◌∷◌, some, length, arith,
}
use rdma_ai_platform.Rdma.CompletionQueue.{
  CompletionQueue, CompletionEvent, make, push, poll, pop_front,
}
use rdma_ai_platform.Rdma.Config.{CompletionQueueConfig}
use rdma_ai_platform.Rdma.EventChannel.{Channels, notify_all}

-- Pushes in a row.
pub push_each : List CompletionEvent → CompletionQueue → Channels → CompletionQueue × Channels
unfolding push
push_each [] q cs = (q, cs)
push_each (e ∷ es) q cs = let (q', cs') = push e q cs in push_each es q' cs'

push_each-push_all :
    (es : List CompletionEvent) (q : CompletionQueue) (cs : Channels)
    → (push_each es q cs).0 ≡ record q { queue = push_all q.config.depth es q.queue }
unfolding push_each push_all
push_each-push_all [] q cs = refl
push_each-push_all (e ∷ es) q cs =
    push_each-push_all es (record q { queue = push_bounded q.config.depth e q.queue })
      (notify_all q.channels cs)

-- A queue holds, in order, the last events pushed since it was made, as many as its depth, and all
-- of them where its depth is 0. No push fails: an old event is lost in place of a new one.
pub push_each-keep_last :
    (c : CompletionQueueConfig) (es : List CompletionEvent) (cs : Channels)
    → (push_each es (make c) cs).0.queue ≡ (if ltb 0 c.depth then keep_last c.depth es else es)
unfolding make
push_each-keep_last c es cs = elim (dec_lt 0 c.depth) [
  | yes pos ↦
      ap (λ q. q.queue) (push_each-push_all es (make c) cs)
      ∙ push_all-nil c.depth es pos
      ∙ sym (if_true _ _ _ (lt→ltb 0 c.depth pos))
  | no none_kept ↦
      let zero_depth : c.depth ≡ 0 = omega arith in
      let small : ltb 0 c.depth ≡ false = ground (arith, zero_depth) in
      ap (λ q. q.queue) (push_each-push_all es (make c) cs)
      ∙ ap (λ n. push_all n es []) zero_depth
      ∙ push_all_unbounded es []
      ∙ sym (if_false _ _ _ small)
]

-- A queue with a depth holds at most so many events.
pub record IsValid (q : CompletionQueue) : Type 0 where
  pub bounded : 0 < q.config.depth → length q.queue ≤ q.config.depth

pub push-IsValid :
    (e : CompletionEvent) (q : CompletionQueue) (cs : Channels)
    → IsValid q
    → IsValid (push e q cs).0
unfolding push
push-IsValid e q cs v = record {
  bounded = λ pos. (length-push_bounded q.config.depth e q.queue pos (v.bounded pos)).0;
}

poll-bound : (d : ℕ) (q : CompletionQueue) → length q.queue ≤ d → length (poll q).0.queue ≤ d
unfolding poll pop_front
poll-bound d q h = ground arith

poll-config : (q : CompletionQueue) → (poll q).0.config ≡ q.config
unfolding poll pop_front
poll-config q = ground arith

pub poll-IsValid : (q : CompletionQueue) → IsValid q → IsValid (poll q).0
poll-IsValid q v = record {
  bounded = rw (poll-config q) (λ pos. poll-bound q.config.depth q (v.bounded pos));
}

poll_front :
    (q : CompletionQueue) (e : CompletionEvent) (es : List CompletionEvent)
    → q.queue ≡ e ∷ es
    → ((poll q).1 ≡ some e) × ((poll q).0.queue ≡ es)
unfolding poll pop_front
poll_front q e es h = ground arith

-- As long as the depth is not passed, the events come out in the order of the pushes.
pub poll-push_each :
    (c : CompletionQueueConfig) (e : CompletionEvent) (es : List CompletionEvent) (cs : Channels)
    → length (e ∷ es) ≤ c.depth
    → let q = (push_each (e ∷ es) (make c) cs).0 in ((poll q).1 ≡ some e) × ((poll q).0.queue ≡ es)
poll-push_each c e es cs h = poll_front _ e es (
    push_each-keep_last c (e ∷ es) cs
    ∙ if_true _ _ _ (lt→ltb 0 c.depth (omega arith))
    ∙ keep_last_all c.depth (e ∷ es) h)
