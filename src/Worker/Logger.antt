-- ===== src/Worker/Logger.antt =====
-- worker/include/logger.h and worker/src/logger.cpp: the two streams that the worker logs to. The
-- local time of a message, as `std::put_time` writes it, is an argument.
use rdma_ai_platform.Common.{[], ◌∷◌, ◌++◌}
use rdma_ai_platform.Text.{Text, codes}

pub data LogLevel : Type 0 where
  info error : LogLevel

-- What was written to `std::cout` and to `std::cerr`.
pub record Streams : Type 0 where
  pub output : Text
  pub errors : Text

-- The text of a message, with the end of its line.
unfoldable pub log_line : Text → LogLevel → Text → Text
log_line time level message =
    codes "["
    ++ (time
        ++ (codes "]["
            ++ (elim level [ info ↦ codes "INFO" | error ↦ codes "ERROR" ]
                ++ (codes "] " ++ (message ++ b'\n' ∷ [])))))

unfoldable pub log : Text → LogLevel → Text → Streams → Streams
unfolding log_line
log time info message s = record s { output = s.output ++ log_line time info message }
log time error message s = record s { errors = s.errors ++ log_line time error message }
