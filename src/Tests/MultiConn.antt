-- ===== src/Tests/MultiConn.antt =====
-- The multi-connection benchmark.
use rdma_ai_platform.Common.{◌≡◌, ◌<◌, ℕ, refl, [], ◌∷◌, List, arith, if◌then◌else◌, ◌==◌}
use rdma_ai_platform.Benchmarks.MultiConn.Complete.{IsServed, waiting_in_all, run-IsServed}
use rdma_ai_platform.Benchmarks.MultiConn.{Fanout, Event, posts, receives, run, set_up, exit_code}

abbrev two_by_two : Fanout
two_by_two = record { connections = 2; rounds = 2; payload_bytes = 8 }

abbrev schedule : List Event
schedule =
    receives 0 ∷ posts 1 ∷ posts 2 ∷ receives 1 ∷ posts 3 ∷ receives 0 ∷ posts 4 ∷ receives 0 ∷ []

run-IsServed_example :
    let r = run two_by_two schedule (set_up two_by_two) in
    ((i : ℕ) → i < 2 → IsServed 2 r.receivers r.wire.transport i i)
    × (exit_code two_by_two r ≡ (if waiting_in_all r.wire.transport 0 2 == 0 then 0 else 1))
run-IsServed_example =
    run-IsServed two_by_two schedule (omega arith) (omega arith) refl (omega arith)
