-- ===== src/Benchmarks/MultiConn/Complete.antt =====
-- The multi-connection benchmark loses no message.
use rdma_ai_platform.Common.{
  min, ℕ, zero, suc, ◌+◌, ◌*◌, ◌≤◌, ◌≡◌, ◌<◌, sym, ap, ◌∙◌, subst, arith, get_elem?, length, some,
  [], ◌∷◌, ◌==◌, true, false, Bool, List, dec_lt, if_true, if_false, Bool-cases, ltb, ltb→lt, inl,
  inr, if◌then◌else◌, dec_lt,
}
use rdma_ai_platform.Benchmarks.MultiConn.{
  Fanout, Run, Receiver, Event, posts, receives, times_out, step, run, receive, set_up, exit_code,
}
use rdma_ai_platform.Benchmarks.MultiConn.Balance.{Sound, waiting, Started-Sound}
use rdma_ai_platform.Benchmarks.MultiConn.Posting.{post-Sound}
use rdma_ai_platform.Benchmarks.MultiConn.Receiving.{receive-Sound}
use rdma_ai_platform.Benchmarks.MultiConn.Setup.{rounds_in_all, set_up-Started}
use rdma_ai_platform.Benchmarks.MultiConn.Turns.{
  position, turns, position_lt, post-position, receive-position,
}
use rdma_ai_platform.Rdma.TransportRdma.{TransportRdma}
use rdma_ai_platform.Rdma.Types.{TimePoint}
use mathlib.Core.Option.{some-injective}
use native.Mathlib.Nat.{zero-mul, suc-mul}

-- No wait ends by its time limit.
abbrev pub patient : List Event → Bool
patient [] = true
patient (times_out i ∷ es) = false
patient (_ ∷ es) = patient es

-- How many steps the sender takes.
abbrev pub posts_in : List Event → ℕ
posts_in [] = 0
posts_in (posts now ∷ es) = suc (posts_in es)
posts_in (_ ∷ es) = posts_in es

position-Sound : (f : Fanout) (r : Run) → Sound f r → position f r ≤ turns f
position-Sound f r s = elim (dec_lt r.round f.rounds) [
  | yes less ↦ omega (arith, position_lt f r less s.place)
  | no done ↦
      let all : r.round ≡ f.rounds = omega (arith, s.within) in
      omega (arith, ap (λ k. k * f.connections) all, s.turn all)
]

position-done : (f : Fanout) (r : Run) → Sound f r → position f r ≡ turns f → r.round ≡ f.rounds
position-done f r s e = elim (dec_lt r.round f.rounds) [
  | yes less ↦ omega (arith, position_lt f r less s.place)
  | no done ↦ omega (arith, s.within)
]

-- The sender's turn.
post_step :
    (f : Fanout) (now : TimePoint) (r : Run)
    → f.rounds ≤ 4096
    → Sound f r
    → Sound f (step f (posts now) r)
      × (position f (step f (posts now) r) ≡ min (turns f) (position f r + 1))
unfolding step
post_step f now r small s = elim (Bool-cases (ltb r.round f.rounds)) [
  | inl more ↦
      let less = ltb→lt r.round f.rounds more in
      (
        subst (Sound f) (sym (if_true _ _ _ more)) (post-Sound f now r small less s),
        ap (position f) (if_true _ _ _ more)
            ∙ post-position f now r s
            ∙ omega (arith, position_lt f r less s.place),
      )
  | inr over ↦
      let all : r.round ≡ f.rounds = ground (arith, s.within) in
      let there : position f r ≡ turns f =
        omega (arith, ap (λ k. k * f.connections) all, s.turn all) in
      (
        subst (Sound f) (sym (if_false _ _ _ over)) s,
        ap (position f) (if_false _ _ _ over) ∙ omega (arith, there),
      )
]

run-Sound :
    (f : Fanout) (es : List Event) (r : Run)
    → f.rounds ≤ 4096
    → patient es ≡ true
    → Sound f r
    → Sound f (run f es r)
      × (position f r ≤ turns f
          → position f (run f es r) ≡ min (turns f) (position f r + posts_in es))
unfolding run
run-Sound f [] r small p s = (s, λ h. omega arith)
run-Sound f (posts now ∷ es) r small p s =
    let (one, at) = post_step f now r small s in
    let (v, ih) = run-Sound f es (step f (posts now) r) small p one in
    (v, λ h. omega (arith, at, ih (omega (arith, at))))
run-Sound f (receives j ∷ es) r small p s =
    let r' = receive f j false (get_elem? r.receivers j) r in
    let at = receive-position f j false (get_elem? r.receivers j) r in
    let (v, ih) = run-Sound f es r' small p (receive-Sound f r j s) in
    (unfold step in v, λ h. unfold step in omega (arith, at, ih (omega (arith, at))))
run-Sound f (times_out j ∷ es) r small p s = cc

-- The messages that wait at `k` destinations from the index `i` on.
abbrev pub waiting_in_all : TransportRdma → ℕ → ℕ → ℕ
waiting_in_all t i zero = 0
waiting_in_all t i (suc k) = length (waiting t i) + waiting_in_all t (i + 1) k

-- The receiver at `i` has received a message for each of `n` rounds or finds it in its mailbox.
abbrev pub IsServed : ℕ → List Receiver → TransportRdma → ℕ → ℕ → Type 0
IsServed n vs t j i =
    (v : Receiver) × (get_elem? vs j ≡ some v) × (v.round + length (waiting t i) ≡ n)

rounds_in_all-IsServed :
    (n : ℕ) (vs : List Receiver) (t : TransportRdma) (i : ℕ)
    → ((j : ℕ) → j < length vs → IsServed n vs t j (i + j))
    → rounds_in_all vs + waiting_in_all t i (length vs) ≡ length vs * n
rounds_in_all-IsServed n [] t i h = omega (arith, zero-mul n)
rounds_in_all-IsServed n (v ∷ vs) t i h =
    let (w, e, total) = h 0 (omega arith) in
    let same : v.round ≡ w.round = ap (λ (x : Receiver). x.round) (some-injective v w e) in
    let total' : w.round + length (waiting t i) ≡ n =
      subst (λ k. w.round + length (waiting t k) ≡ n) (omega arith) total in
    let ih =
      rounds_in_all-IsServed n vs t (i + 1)
        (λ j lt. subst (IsServed n vs t j) (omega arith) (h (suc j) (omega arith))) in
    omega (arith, same, total', ih, suc-mul (length vs) n)

exit_code-total :
    (f : Fanout) (r : Run)
    → Sound f r
    → rounds_in_all r.receivers + waiting_in_all r.wire.transport 0 (length r.receivers)
      ≡ length r.receivers * f.rounds
    → exit_code f r ≡ (if waiting_in_all r.wire.transport 0 f.connections == 0 then 0 else 1)
unfolding exit_code
exit_code-total f r s total =
    let total' : r.received + waiting_in_all r.wire.transport 0 f.connections
        ≡ f.connections * f.rounds =
      ap (λ k. k + waiting_in_all r.wire.transport 0 f.connections) s.received
      ∙ subst (λ n. rounds_in_all r.receivers + waiting_in_all r.wire.transport 0 n ≡ n * f.rounds)
          s.threads total in
    ground arith

-- The benchmark with at least one connection and at most 4096 rounds, under any interleaving of the
-- posts and the receivers' calls in which no wait reaches its time limit and the sender takes all
-- its steps: each receiver has received a message for each round or finds those that are left in
-- its mailbox, and `main`, if it returned now, would return 0 just when none is left in any.
pub run-IsServed :
    (f : Fanout) (es : List Event)
    → 0 < f.connections
    → f.rounds ≤ 4096
    → patient es ≡ true
    → f.rounds * f.connections ≤ posts_in es
    → let r = run f es (set_up f) in
      ((i : ℕ) → i < f.connections → IsServed f.rounds r.receivers r.wire.transport i i)
      × (exit_code f r ≡ (if waiting_in_all r.wire.transport 0 f.connections == 0 then 0 else 1))
unfolding exit_code
run-IsServed f es pos small p over =
    let start = Started-Sound f (set_up f) pos (set_up-Started f) in
    let (s, at) = run-Sound f es (set_up f) small p start in
    let r = run f es (set_up f) in
    let all : r.round ≡ f.rounds =
      position-done f r s (omega (arith, at (position-Sound f (set_up f) start))) in
    let served : (i : ℕ) → i < f.connections → IsServed f.rounds r.receivers r.wire.transport i i =
      λ i h. let b = s.each i h in (b.receiver, b.there, b.total ∙ ground (arith, s.turn all)) in
    let total = rounds_in_all-IsServed f.rounds r.receivers r.wire.transport 0 (λ j h.
      subst (IsServed f.rounds r.receivers r.wire.transport j) (omega arith)
        (served j (omega (arith, s.threads)))) in
    (served, exit_code-total f r s total)
