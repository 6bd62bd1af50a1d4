-- ===== src/Benchmarks/MultiConn/Turns.antt =====
-- How far the sender of the multi-connection benchmark is.
use native.Mathlib.Nat.{mul-le-mul_right, add-mul}
use rdma_ai_platform.Common.{
  ℕ, ◌+◌, ◌*◌, ◌≤◌, ◌≡◌, ◌<◌, refl, ap, ◌∙◌, arith, get_elem?, some, none, Option, Bool, not, ◌||◌,
  if_true, if_false, Bool-cases, ltb, inl, inr,
}
use rdma_ai_platform.Benchmarks.MultiConn.{Fanout, Run, Receiver, advance, post, count, receive}
use rdma_ai_platform.Benchmarks.MultiConn.Balance.{Sound}
use rdma_ai_platform.Rdma.TransportRdma.{Message, poll_receive}
use rdma_ai_platform.Rdma.Types.{TimePoint}

-- The number of the sender's turn, and of all its turns.
abbrev pub position : Fanout → Run → ℕ
position f r = r.round * f.connections + r.next

abbrev pub turns : Fanout → ℕ
turns f = f.rounds * f.connections

-- A sender that is not done has a turn left.
pub position_lt :
    (f : Fanout) (r : Run) → r.round < f.rounds → r.next < f.connections → position f r < turns f
position_lt f r less place =
    let below : (r.round + 1) * f.connections ≤ f.rounds * f.connections =
      mul-le-mul_right f.connections (omega arith) in
    omega (arith, below, add-mul r.round 1 f.connections)

advance-position :
    (f : Fanout) (r : Run) → r.next < f.connections → position f (advance f r) ≡ position f r + 1
unfolding advance
advance-position f r place = elim (Bool-cases (ltb (r.next + 1) f.connections)) [
  | inl more ↦ ap (position f) (if_true _ _ _ more) ∙ omega arith
  | inr last ↦
      let full : f.connections ≡ r.next + 1 = ground arith in
      ap (position f) (if_false _ _ _ last) ∙ omega (arith, add-mul r.round 1 f.connections)
]

pub post-position :
    (f : Fanout) (now : TimePoint) (r : Run)
    → Sound f r
    → position f (post f now (get_elem? r.queue_pairs r.next) r) ≡ position f r + 1
unfolding post
post-position f now r s =
    ap (λ o. position f (post f now o r)) (s.pairs r.next s.place) ∙ advance-position f _ s.place

count-position :
    (f : Fanout) (i : ℕ) (v : Receiver) (ended : Bool) (o : Option Message) (r : Run)
    → position f (count i v ended o r) ≡ position f r
unfolding count
count-position f i v ended none r = refl
count-position f i v ended (some m) r = refl

pub receive-position :
    (f : Fanout) (i : ℕ) (ended : Bool) (o : Option Receiver) (r : Run)
    → position f (receive f i ended o r) ≡ position f r
unfolding receive
receive-position f i ended none r = refl
receive-position f i ended (some v) r =
    let (t, message) = poll_receive v.node r.wire.transport in
    elim (Bool-cases (v.returned || not (ltb v.round f.rounds))) [
      | inl over ↦ ap (position f) (if_true _ _ _ over)
      | inr goes ↦
          ap (position f) (if_false _ _ _ goes)
          ∙ count-position f i v ended message (record r { wire = record r.wire { transport = t } })
    ]
