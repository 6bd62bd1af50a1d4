-- ===== src/Worker/Config/RoundTrip.antt =====
-- A configuration written out as lines of keys and values is the one that `loadConfig` loads.
use rdma_ai_platform.Common.{if_true, true, ap, ◌∙◌, some, ℕ, ◌^◌, ◌<◌, ◌≡◌, refl, false, [], arith}
use rdma_ai_platform.Common.Int.{pos, is_nonpositive}
use rdma_ai_platform.Text.Decimal.{to_string}
use rdma_ai_platform.Text.Lines.{lines}
use rdma_ai_platform.Text.{Text, codes, text_eq, is_empty}
use rdma_ai_platform.Worker.Config.Reading.{
  line, IsValue, read_lines-line, read_lines-number, bytes-IsKey, set_number,
}
use rdma_ai_platform.Worker.Config.{
  WorkerConfig, read_lines, set_key, is_valid, accept, load_config,
}

-- What a configuration file can say.
pub record Settings : Type 0 where
  pub worker_id : Text
  pub listen_port : ℕ
  pub scheduler_addr : Text
  pub heartbeat_interval : ℕ
  pub threads : ℕ

abbrev pub config_of : Settings → WorkerConfig
config_of s = record {
  worker_id = s.worker_id;
  listen_port = pos s.listen_port;
  scheduler_addr = s.scheduler_addr;
  heartbeat_interval = pos s.heartbeat_interval;
  threads = pos s.threads;
}

pub print_config : Settings → Text
print_config s = line (codes "worker_id") s.worker_id (
    line (codes "listen_port") (to_string s.listen_port) (
      line (codes "scheduler_addr") s.scheduler_addr (
        line (codes "heartbeat_interval") (to_string s.heartbeat_interval)
          (line (codes "threads") (to_string s.threads) []))))

pub record IsPlain (s : Settings) : Type 0 where
  pub worker_id : IsValue s.worker_id
  pub scheduler_addr : IsValue s.scheduler_addr
  pub listen_port : (0 < s.listen_port) × (s.listen_port < 2 ^ 31)
  pub heartbeat_interval : (0 < s.heartbeat_interval) × (s.heartbeat_interval < 2 ^ 31)
  pub threads : (0 < s.threads) × (s.threads < 2 ^ 31)

read_lines-print_config :
    (s : Settings) (c : WorkerConfig)
    → IsPlain s
    → read_lines (lines (print_config s)) c ≡ some (config_of s)
unfolding print_config set_key text_eq read_lines lines
read_lines-print_config s c p =
    let c1 : WorkerConfig = record c { worker_id = s.worker_id } in
    let c2 : WorkerConfig = record c1 { listen_port = pos s.listen_port } in
    let c3 : WorkerConfig = record c2 { scheduler_addr = s.scheduler_addr } in
    let c4 : WorkerConfig = record c3 { heartbeat_interval = pos s.heartbeat_interval } in
    read_lines-line b'w' (codes "orker_id") s.worker_id _ c c1
      (bytes-IsKey b'w' (codes "orker_id") (omega arith)) p.worker_id refl
    ∙ read_lines-number b'l' (codes "isten_port") _ s.listen_port c1 c2 (omega arith)
        (set_number (to_string s.listen_port) s.listen_port _) p.listen_port.1
    ∙ read_lines-line b's' (codes "cheduler_addr") s.scheduler_addr _ c2 c3
        (bytes-IsKey b's' (codes "cheduler_addr") (omega arith)) p.scheduler_addr refl
    ∙ read_lines-number b'h' (codes "eartbeat_interval") _ s.heartbeat_interval c3 c4 (omega arith)
        (set_number (to_string s.heartbeat_interval) s.heartbeat_interval _) p.heartbeat_interval.1
    ∙ read_lines-number b't' (codes "hreads") [] s.threads c4 (config_of s) (omega arith)
        (set_number (to_string s.threads) s.threads _) p.threads.1

is_empty-front : (v : Text) → IsValue v → is_empty v ≡ false
unfolding is_empty
is_empty-front v h = let (x, xs, e, _) = h.trimmed.front in ap is_empty e

is_nonpositive-pos : (n : ℕ) → 0 < n → is_nonpositive (pos n) ≡ false
unfolding is_nonpositive
is_nonpositive-pos n h = ground arith

config_of-is_valid : (s : Settings) → IsPlain s → is_valid (config_of s) ≡ true
unfolding is_valid
config_of-is_valid s p =
    rw
      (
        is_empty-front s.worker_id p.worker_id,
        is_nonpositive-pos s.listen_port p.listen_port.0,
        is_empty-front s.scheduler_addr p.scheduler_addr,
        is_nonpositive-pos s.heartbeat_interval p.heartbeat_interval.0,
        is_nonpositive-pos s.threads p.threads.0,
      )
      refl

-- A file that says, line for line, what a configuration is to be, with a name and an address of one
-- line that have no comment sign and no blank at an end, and with numbers from 1 to 2 ^ 31 - 1, is
-- loaded as that configuration, whatever the configuration was before.
pub load_config-print_config :
    (s : Settings) (c : WorkerConfig)
    → IsPlain s
    → load_config (some (print_config s)) c ≡ (config_of s, true)
unfolding load_config accept
load_config-print_config s c p =
    ap (accept c) (read_lines-print_config s c p) ∙ if_true _ _ _ (config_of-is_valid s p)
