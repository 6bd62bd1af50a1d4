-- ===== src/Examples/PingPong/Rounds.antt =====
-- The example under any schedule in which no wait reaches its time limit.
use rdma_ai_platform.Common.{
  ◌≡◌, ◌≤◌, ◌<◌, ◌+◌, ◌*◌, ◌^◌, Bool, true, false, List, [], ◌∷◌, ℕ, zero, suc,
}
use rdma_ai_platform.Examples.PingPong.Phases.{Asking, Sent, Serving, Replied, Over}
use rdma_ai_platform.Examples.PingPong.{
  Game, client_ended, server_ended, Event, client_goes, server_goes, client_late, server_late,
  client_step, server_step,
}

-- No wait ends by its time limit.
abbrev pub patient : List Event → Bool
patient [] = true
patient (client_late ∷ es) = false
patient (server_late ∷ es) = false
patient (_ ∷ es) = patient es

-- The phase of the game, with at most `m` more turns of both loops before the client is done.
pub data Phase (n : ℕ) (g : Game) (m : ℕ) : Type 0 where
  asking : (i : ℕ) → 3 * n + 1 ≤ m + 3 * i → Asking n i g → Phase n g m
  sent : (i : ℕ) → 3 * n + 1 ≤ m + 3 * i → Sent n i g → Phase n g m
  serving : (i : ℕ) → 3 * n ≤ m + 3 * i → Serving n i g → Phase n g m
  replied : (i : ℕ) → 3 * n ≤ m + 3 * i + 1 → Replied n i g → Phase n g m
  over : Over n g → Phase n g m

-- Turns of both loops, and the server's last test.
abbrev pub turns : ℕ → List Event
turns zero = server_goes ∷ []
turns (suc k) = client_goes ∷ server_goes ∷ turns k

-- Both loops are over, with a result for each round.
pub record IsDone (n : ℕ) (g : Game) : Type 0 where
  pub client : g.client_at ≡ client_ended
  pub server : g.server_at ≡ server_ended
  pub received : g.received ≡ n

module _ (n : ℕ) (room : n + 1 < 2 ^ 64) where
  -- A turn of both loops.
  abbrev both : Game → Game
  both g = let g' = client_step n false g.client_at g in server_step n false g'.server_at g'
