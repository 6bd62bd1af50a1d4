-- ===== src/Tests/Node.antt =====
-- Starts and stops of the worker.
use rdma_ai_platform.Text.Lines.{lines}
use rdma_ai_platform.Text.Trim.{drop_while, span, trim_both}
use rdma_ai_platform.Text.Decimal.{value_from}
use rdma_ai_platform.Worker.Config.{
  load_config, read_lines, read_line, parse_int, accept, is_valid, read_entry, set_key, stoi,
  stoi_digits, stoi_sign, strip_comment, trim,
}
use rdma_ai_platform.Worker.SchedulerClient.{configure}
use rdma_ai_platform.Worker.TcpTransport as Server
use rdma_ai_platform.Worker.ThreadPool as Pool
use rdma_ai_platform.Worker.ThreadPool.{enqueue}
use rdma_ai_platform.Worker.Timer as Clock
use rdma_ai_platform.Worker.TaskQueue as Queue
use rdma_ai_platform.Worker.TaskQueue.{empty_queue}
use rdma_ai_platform.Common.{refl, ◌≡◌, true, false, some, List, [], ◌∷◌}
use rdma_ai_platform.Text.{codes, split_at, text_eq}
use rdma_ai_platform.Worker.Task.{Task}
use rdma_ai_platform.Worker.TaskQueue.{push}
use rdma_ai_platform.Worker.WorkerNode.Lifecycle.{
  call, Call, starts, stop_calls, call_each, IsSettled, call_each-IsSettled,
}
use rdma_ai_platform.Worker.WorkerNode.Restart.{start-stop_refuses}
use rdma_ai_platform.Worker.WorkerNode.Running.{IsUp}
use rdma_ai_platform.Worker.WorkerNode.{Environment, new_node, stop, start}

-- A start that the scheduler refuses, and one that it accepts.
abbrev pub refused : Environment
refused = record {
  file = some (codes "threads: 2\n");
  calls = record { socket_ok = true; setsockopt_ok = true; bind_ok = true; listen_ok = true };
  threads = 2;
  registered = false;
}

abbrev pub accepted : Environment
accepted = record refused { registered = true }

abbrev session : List Call
session = starts refused ∷ starts accepted ∷ stop_calls ∷ starts accepted ∷ []

call_each-IsSettled_example : IsSettled (call_each session new_node)
call_each-IsSettled_example = call_each-IsSettled session

abbrev job : Task
job = record { id = codes "t1"; prompt = codes "p" }

second_start :
    (start accepted (call_each [] (stop (call_each (starts accepted ∷ []) new_node)))).1 ≡ true
unfolding start stop call_each load_config read_lines lines read_line trim_both drop_while split_at
    text_eq parse_int span value_from call new_node Server.start Server.new_transport Server.stop
    Pool.start Pool.make Pool.stop accept is_valid read_entry set_key stoi stoi_digits stoi_sign
    strip_comment trim configure Clock.start Clock.stop Clock.new_timer enqueue Queue.stop
    empty_queue
second_start = refl

-- The second start succeeds, and yet the worker takes no task.
start-stop_refuses_example :
    let n = (start accepted (call_each [] (stop (call_each (starts accepted ∷ []) new_node)))).0 in
    IsUp n × ((push job n.task_queue).1 ≡ false)
start-stop_refuses_example = start-stop_refuses (starts accepted ∷ []) [] accepted job second_start
