-- ===== src/Benchmarks/Transfer/Lossy.antt =====
-- Messages are lost where a benchmark posts more than the mailbox holds before the receiver runs.
use rdma_ai_platform.Common.{
  ltb, ℕ, zero, suc, ◌+◌, ◌≤◌, ◌<◌, ◌≡◌, refl, ap, ◌∙◌, inl, inr, Bool, true, false, not, ◌||◌,
  List, [], ◌∷◌, arith, length, replicate, ltb, Bool-cases,
}
use rdma_ai_platform.Benchmarks.Transfer.Steps.{
  set_up-waiting, set_up-capacity, waiting, receive-Received, receive_over, post_over, post-waiting,
  post-config, post-fields,
}
use rdma_ai_platform.Bounded.{push_bounded, length-push_bounded}
use rdma_ai_platform.Benchmarks.Transfer.{
  Benchmark, Run, Event, posts, receives, times_out, step, run, receive, round_message, set_up,
  exit_code,
}
use rdma_ai_platform.Rdma.QueuePair.{QueuePair, is_ready_to_send}
use rdma_ai_platform.Rdma.TransportRdma.{address}

-- Only the receiver's steps.
abbrev pub receiver_only : List Event → Bool
receiver_only [] = true
receiver_only (posts now ∷ es) = false
receiver_only (_ ∷ es) = receiver_only es

abbrev pub all_posts : ℕ → List Event
all_posts n = replicate n (posts 0)

set_up-received : (b : Benchmark) (qp : QueuePair) → (set_up b qp).received ≡ 0
unfolding set_up
set_up-received b qp = refl

module _ (b : Benchmark) (qp : QueuePair) (ready : is_ready_to_send qp ≡ true)
    (leads : qp.config.remote_node ≡ b.destination) where
  -- The mailbox after posts alone, where `n` is its capacity.
  posts-bounded :
      (n k : ℕ) (r : Run)
      → 0 < n
      → r.wire.transport.config.mailbox_capacity ≡ n
      → length (waiting b r) ≤ n
      → r.received ≡ 0
      → let r' = run b qp (all_posts k) r in r'.received + length (waiting b r') ≤ n
  unfolding run
  posts-bounded n zero r pos cap within none_received = omega arith
  posts-bounded n (suc k) r pos cap within none_received =
      elim (Bool-cases (ltb r.posted b.rounds)) [
        | inl more ↦
            let (_, same, _) = post-fields b qp ready leads 0 r more in
            let config = post-config b qp ready leads 0 r more in
            let there = post-waiting b qp ready leads 0 r more in
            let m = address qp (round_message b r.region r.posted) in
            let there' : waiting b (step b qp (posts 0) r) ≡ push_bounded n m (waiting b r) =
              there ∙ ap (λ c. push_bounded c m (waiting b r)) cap in
            posts-bounded n k (step b qp (posts 0) r) pos
              (ap (λ c. c.mailbox_capacity) config ∙ cap)
              (omega
                (arith, ap length there', (length-push_bounded n m (waiting b r) pos within).0))
              (same ∙ none_received)
        | inr over ↦
            posts-bounded n k (step b qp (posts 0) r) pos
              (ap (λ (s : Run). s.wire.transport.config.mailbox_capacity) (post_over b qp 0 r over)
                ∙ cap)
              (omega (arith, ap (λ (s : Run). length (waiting b s)) (post_over b qp 0 r over)))
              (ap (λ (s : Run). s.received) (post_over b qp 0 r over) ∙ none_received)
      ]

  receive-total :
      (ended : Bool) (r : Run)
      → (receive b ended r).received + length (waiting b (receive b ended r))
        ≡ r.received + length (waiting b r)
  receive-total ended r = elim (Bool-cases (r.gave_up || not (ltb r.received b.rounds))) [
    | inl over ↦ ap (λ (s : Run). s.received + length (waiting b s)) (receive_over b ended r over)
    | inr goes ↦ (receive-Received b ended r goes).total
  ]

  receives-total :
      (es : List Event) (r : Run)
      → receiver_only es ≡ true
      → (run b qp es r).received + length (waiting b (run b qp es r))
        ≡ r.received + length (waiting b r)
  unfolding run step
  receives-total [] r p = refl
  receives-total (posts now ∷ es) r p = cc
  receives-total (receives ∷ es) r p =
      receives-total es (receive b false r) p ∙ receive-total false r
  receives-total (times_out ∷ es) r p =
      receives-total es (receive b true r) p ∙ receive-total true r

  -- A benchmark of more rounds than the mailbox's 4096 messages, over a queue pair that may send to
  -- the receiver's node: if its sender posts all of them before the receiver runs, then whatever
  -- the receiver does it gets at most 4096, and `main` returns 1.
  pub run_lossy :
      (es : List Event)
      → 4096 < b.rounds
      → receiver_only es ≡ true
      → let r = run b qp es (run b qp (all_posts b.rounds) (set_up b qp)) in
        (r.received ≤ 4096) × (exit_code b r ≡ 1)
  unfolding exit_code
  run_lossy es large p =
      let start : Run = set_up b qp in
      let full : (run b qp (all_posts b.rounds) start).received
            + length (waiting b (run b qp (all_posts b.rounds) start))
          ≤ 4096 =
        posts-bounded 4096 b.rounds start (omega arith) (set_up-capacity b qp)
          (omega (arith, ap length (set_up-waiting b qp))) (set_up-received b qp) in
      let kept = receives-total es (run b qp (all_posts b.rounds) start) p in
      let few : (run b qp es (run b qp (all_posts b.rounds) start)).received ≤ 4096 =
        omega (arith, full, kept) in
      (few, ground arith)
