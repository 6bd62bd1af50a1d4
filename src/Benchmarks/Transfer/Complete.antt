-- ===== src/Benchmarks/Transfer/Complete.antt =====
-- All messages arrive where they fit the mailbox.
use rdma_ai_platform.Common.{
  min, ltb→lt, lt→ltb, zero, suc, ◌-◌, not, ◌||◌, replicate, ltb, ℕ, ◌+◌, ◌≤◌, ◌≡◌, refl, sym, ap,
  ◌∙◌, subst, inl, inr, Bool, true, false, List, [], ◌∷◌, arith, length, length-append, ltb,
  Bool-cases,
}
use rdma_ai_platform.Benchmarks.Transfer.Steps.{
  set_up-waiting, set_up-capacity, receive_over, post_over, waiting, receive-Received, post-waiting,
  post-config, post-fields,
}
use rdma_ai_platform.Bounded.{push_room}
use rdma_ai_platform.Benchmarks.Transfer.{
  round_message, Benchmark, Run, Event, posts, receives, times_out, step, run, receive, set_up,
  exit_code,
}
use rdma_ai_platform.Rdma.QueuePair.{QueuePair, is_ready_to_send}
use rdma_ai_platform.Rdma.TransportRdma.{address}

-- No wait ends by its time limit.
abbrev pub patient : List Event → Bool
patient [] = true
patient (times_out ∷ es) = false
patient (_ ∷ es) = patient es

-- What was posted was received or waits.
pub record Lossless (b : Benchmark) (r : Run) : Type 0 where
  pub total : r.received + length (waiting b r) ≡ r.posted
  pub within : r.posted ≤ b.rounds
  pub room : b.rounds ≤ r.wire.transport.config.mailbox_capacity
  pub goes_on : r.gave_up ≡ false

set_up-Lossless : (b : Benchmark) (qp : QueuePair) → b.rounds ≤ 4096 → Lossless b (set_up b qp)
unfolding set_up
set_up-Lossless b qp small = record {
  total = omega (arith, ap length (set_up-waiting b qp));
  within = omega arith;
  room = omega (arith, set_up-capacity b qp);
  goes_on = refl;
}

receive-Lossless : (b : Benchmark) (r : Run) → Lossless b r → Lossless b (receive b false r)
receive-Lossless b r v = elim (Bool-cases (r.gave_up || not (ltb r.received b.rounds))) [
  | inl over ↦ subst (Lossless b) (sym (receive_over b false r over)) v
  | inr goes ↦
      let k = receive-Received b false r goes in
      record {
        total = k.total ∙ v.total ∙ sym k.posted;
        within = omega (arith, k.posted, v.within);
        room = subst (λ c. b.rounds ≤ c.mailbox_capacity) (sym k.config) v.room;
        goes_on = k.stays refl v.goes_on;
      }
]

-- How many steps the sender takes.
abbrev pub posts_in : List Event → ℕ
posts_in [] = 0
posts_in (posts now ∷ es) = suc (posts_in es)
posts_in (_ ∷ es) = posts_in es

receive-posted : (b : Benchmark) (ended : Bool) (r : Run) → (receive b ended r).posted ≡ r.posted
receive-posted b ended r = elim (Bool-cases (r.gave_up || not (ltb r.received b.rounds))) [
  | inl over ↦ ap (λ (s : Run). s.posted) (receive_over b ended r over)
  | inr goes ↦ (receive-Received b ended r goes).posted
]

module _ (b : Benchmark) (qp : QueuePair) (ready : is_ready_to_send qp ≡ true)
    (leads : qp.config.remote_node ≡ b.destination) where
  post-Lossless : (now : ℕ) (r : Run) → Lossless b r → Lossless b (step b qp (posts now) r)
  post-Lossless now r v = elim (Bool-cases (ltb r.posted b.rounds)) [
    | inl more ↦
        let (one, same, on) = post-fields b qp ready leads now r more in
        let there = post-waiting b qp ready leads now r more in
        let pushed =
          push_room r.wire.transport.config.mailbox_capacity
            (address qp (round_message b r.region r.posted)) (waiting b r)
            (omega (arith, v.total, v.room, ltb→lt r.posted b.rounds more)) in
        record {
          total = omega (
            arith,
            one,
            same,
            ap length there,
            ap length pushed,
            length-append (waiting b r) (address qp (round_message b r.region r.posted) ∷ []),
            v.total,
          );
          within = omega (arith, one, ltb→lt r.posted b.rounds more);
          room =
              subst (λ c. b.rounds ≤ c.mailbox_capacity)
                (sym (post-config b qp ready leads now r more)) v.room;
          goes_on = on ∙ v.goes_on;
        }
    | inr over ↦ subst (Lossless b) (sym (post_over b qp now r over)) v
  ]

  run-Lossless :
      (es : List Event) (r : Run) → patient es ≡ true → Lossless b r → Lossless b (run b qp es r)
  unfolding run
  run-Lossless [] r p v = v
  run-Lossless (posts now ∷ es) r p v =
      run-Lossless es (step b qp (posts now) r) p (post-Lossless now r v)
  run-Lossless (receives ∷ es) r p v =
      run-Lossless es (step b qp receives r) p (unfold step in receive-Lossless b r v)
  run-Lossless (times_out ∷ es) r p v = cc

  -- The sender's loop is over when it has taken as many steps as there are rounds.
  run-posted :
      (es : List Event) (r : Run)
      → r.posted ≤ b.rounds
      → (run b qp es r).posted ≡ min b.rounds (r.posted + posts_in es)
  unfolding run step
  run-posted [] r h = omega arith
  run-posted (posts now ∷ es) r h = elim (Bool-cases (ltb r.posted b.rounds)) [
    | inl more ↦
        let (one, _, _) = post-fields b qp ready leads now r more in
        let ih =
          run-posted es (step b qp (posts now) r)
            (omega (arith, one, ltb→lt r.posted b.rounds more)) in
        omega (arith, one, ih)
    | inr over ↦
        let same = ap (λ (s : Run). s.posted) (post_over b qp now r over) in
        let ih = run-posted es (step b qp (posts now) r) (omega (arith, same)) in
        ih ∙ ground (arith, same, over)
  ]
  run-posted (receives ∷ es) r h =
      let same = receive-posted b false r in
      let ih = run-posted es (receive b false r) (omega (arith, same)) in omega (arith, same, ih)
  run-posted (times_out ∷ es) r h =
      let same = receive-posted b true r in
      let ih = run-posted es (receive b true r) (omega (arith, same)) in omega (arith, same, ih)

  -- Once all is posted, each further call of the receiver finds a message.
  drain :
      (k : ℕ) (r : Run)
      → Lossless b r
      → r.posted ≡ b.rounds
      → r.received + k ≡ b.rounds
      → (run b qp (replicate k receives) r).received ≡ b.rounds
  unfolding run step
  drain zero r v all left = omega arith
  drain (suc k) r v all left =
      let open_loop : (r.gave_up || not (ltb r.received b.rounds)) ≡ false =
        ground (arith, v.goes_on, lt→ltb r.received b.rounds (omega arith)) in
      let w = receive-Received b false r open_loop in
      drain k (receive b false r) (receive-Lossless b r v) (w.posted ∙ all)
        (omega (arith, w.total, w.fewer, v.total))

  -- A benchmark whose rounds fit the mailbox of 4096 messages, over a queue pair that may send to
  -- the receiver's node: however the posts and the receiver's calls interleave, if no wait of the
  -- receiver reaches its time limit and the sender takes all its steps, then each message was
  -- received or waits, the calls that the receiver has left all find a message, and `main` returns
  -- 0.
  pub run_complete :
      (es : List Event)
      → b.rounds ≤ 4096
      → patient es ≡ true
      → b.rounds ≤ posts_in es
      → let r = run b qp es (set_up b qp) in
        (r.received + length (waiting b r) ≡ b.rounds)
        × (exit_code b (run b qp (replicate (b.rounds - r.received) receives) r) ≡ 0)
  unfolding exit_code
  run_complete es small p over =
      let r = run b qp es (set_up b qp) in
      let start = set_up-Lossless b qp small in
      let v = run-Lossless es (set_up b qp) p start in
      let posted = run-posted es (set_up b qp) start.within in
      let all : r.posted ≡ b.rounds = omega arith in
      (
        v.total ∙ all,
        ground (arith, drain (b.rounds - r.received) r v all (omega (arith, v.total, all))),
      )
