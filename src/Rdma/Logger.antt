-- ===== src/Rdma/Logger.antt =====
-- rdma/include/rdma/logger.h and rdma/src/logger.cpp: the process's logger, which drops what is
-- below its level. The log is the text written to `std::clog`.
use rdma_ai_platform.Common.{ltb, ℕ, [], ◌∷◌, ◌++◌, ltb, if◌then◌else◌}
use rdma_ai_platform.Rdma.Types.{LogLevel, debug, info, warn, level_to_string}
use rdma_ai_platform.Text.{Text, codes}

pub record Logger : Type 0 where
  pub level : LogLevel
  pub log : Text

-- `Instance()`, at its first call.
unfoldable pub new_logger : Logger
new_logger = record { level = info; log = [] }

unfoldable pub set_level : LogLevel → Logger → Logger
set_level level l = record l { level = level }

-- `static_cast<int>`.
unfoldable pub rank : LogLevel → ℕ
rank debug = 0
rank info = 1
rank warn = 2
rank LogLevel.error = 3

-- The line of a message.
unfoldable pub line : LogLevel → Text → Text
line level message =
    codes "[rdma][" ++ (level_to_string level ++ (codes "] " ++ (message ++ b'\n' ∷ [])))

unfoldable pub write_log : LogLevel → Text → Logger → Logger
unfolding rank line
write_log level message l =
    if ltb (rank level) (rank l.level) then l else record l { log = l.log ++ line level message }
