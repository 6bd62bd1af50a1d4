-- ===== src/Worker/Config/Loading.antt =====
-- Configurations that `loadConfig` refuses because of one line.
use rdma_ai_platform.Common.{◌≡◌, none, ◌∷◌, ◌++◌, ℕ}
use rdma_ai_platform.Text.{Text, codes, Lacks}
use rdma_ai_platform.Worker.Config.Reading.{IsValue}
use rdma_ai_platform.Worker.Config.{parse_int}

-- The keys whose values are numbers, as first byte and rest.
pub data IsNumberKey : ℕ → Text → Type 0 where
  listen_port : IsNumberKey b'l' (codes "isten_port")
  heartbeat_interval : IsNumberKey b'h' (codes "eartbeat_interval")
  threads : IsNumberKey b't' (codes "hreads")

-- A line that is neither blank nor a comment and has no colon, or one that gives a key for a number
-- something that is none.
pub data IsMalformed : Text → Type 0 where
  no_colon : {l : Text} → IsValue l → Lacks b':' l → IsMalformed l
  no_number :
      {k : ℕ} {ks value : Text}
      → IsNumberKey k ks
      → IsValue value
      → parse_int value ≡ none
      → IsMalformed ((k ∷ ks) ++ b':' ∷ b' ' ∷ value)
