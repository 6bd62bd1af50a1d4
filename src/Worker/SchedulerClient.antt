-- ===== src/Worker/SchedulerClient.antt =====
-- worker/include/scheduler_client.h and worker/src/scheduler_client.cpp: the requests to the
-- scheduler. The network is given by its answers (Worker/Http): see `post_json` there. Log lines
-- are not modelled.
pub mod Escape
pub mod Address
use rdma_ai_platform.Common.Int.{ℤ, pos, negsuc, is_positive}
use rdma_ai_platform.Common.{
  suc, true, false, ◌||◌, Option, none, some, List, [], ◌∷◌, ◌++◌, ◌==◌, if◌then◌else◌, ℕ,
}
use rdma_ai_platform.Text.Decimal.{to_string}
use rdma_ai_platform.Text.{Text, codes, is_empty, split_at, strip_prefix}
use rdma_ai_platform.Worker.Task.{TaskResult}

-- One byte of `escapeJSONString`.
unfoldable pub escape_byte : ℕ → Text
escape_byte ch =
    if ch == b'\\'
    then codes "\\\\"
    else if ch == b'"'
    then codes "\\\""
    else if ch == b'\n'
    then codes "\\n"
    else if ch == b'\r'
    then codes "\\r"
    else if ch == b'\t'
    then codes "\\t"
    else ch ∷ []

unfoldable pub escape_json_string : Text → Text
escape_json_string [] = []
escape_json_string (ch ∷ input) = escape_byte ch ++ escape_json_string input

-- What stands before the last `c` and what stands behind it: `rfind(c)` and two `substr`.
unfoldable pub split_last : ℕ → Text → Option (Text × Text)
split_last c [] = none
split_last c (x ∷ xs) = elim (split_last c xs) [
  | some (a, b) ↦ some (x ∷ a, b)
  | none ↦ if x == c then some ([], xs) else none
]

-- The text without the prefix `http://`.
unfoldable pub strip_scheme : Text → Text
strip_scheme address = elim (strip_prefix (codes "http://") address) [
  | none ↦ address
  | some rest ↦ rest
]

-- The text up to the first slash.
unfoldable pub strip_path : Text → Text
strip_path address = elim (split_at b'/' address) [ none ↦ address | some (before, _) ↦ before ]

-- Host and port, or nothing for `false`: also when one of them would be empty.
unfoldable pub split_authority : Text → Option (Text × Text)
unfolding split_last
split_authority normalized = elim (split_last b':' normalized) [
  | none ↦ none
  | some (host, port) ↦ if is_empty host || is_empty port then none else some (host, port)
]

unfoldable pub split_host_port : Text → Option (Text × Text)
unfolding split_authority strip_path strip_scheme
split_host_port address = split_authority (strip_path (strip_scheme address))

pub record SchedulerClient : Type 0 where
  pub scheduler_addr : Text
  pub worker_id : Text

unfoldable pub configure : Text → Text → SchedulerClient → SchedulerClient
configure scheduler_addr worker_id c = record {
  scheduler_addr = scheduler_addr;
  worker_id = worker_id;
}

-- `stream << n` for an `int`.
abbrev pub print_int : ℤ → Text
print_int (pos n) = to_string n
print_int (negsuc n) = b'-' ∷ to_string (suc n)

-- A text in quotes.
abbrev pub quoted : Text → Text
quoted s = b'"' ∷ (escape_json_string s ++ b'"' ∷ [])

unfoldable pub register_body : Text → Text → ℤ → Text
register_body worker_id address capacity =
    codes "{\"id\":"
    ++ (quoted worker_id
        ++ (codes ",\"address\":"
            ++ (quoted address ++ (codes ",\"capacity\":" ++ (print_int capacity ++ codes "}")))))

-- The loop over the identifiers, a comma before each but the first.
unfoldable pub id_list : List Text → Text
id_list [] = []
id_list (id ∷ []) = quoted id
id_list (id ∷ id' ∷ ids) = quoted id ++ (b',' ∷ id_list (id' ∷ ids))

-- The member with the active tasks, left out when there are none.
unfoldable pub active_member : List Text → Text
unfolding id_list
active_member [] = []
active_member (id ∷ ids) = codes ",\"active_task_ids\":[" ++ (id_list (id ∷ ids) ++ codes "]")

unfoldable pub heartbeat_body : Text → ℤ → List Text → Text
unfolding active_member
heartbeat_body worker_id running_tasks active_task_ids =
    codes "{\"id\":"
    ++ (quoted worker_id
        ++ (codes ",\"running_tasks\":"
            ++ (print_int running_tasks
                ++ (codes ",\"status\":"
                    ++ ((if is_positive running_tasks then codes "\"busy\"" else codes "\"ready\"")
                        ++ (active_member active_task_ids ++ codes "}"))))))

unfoldable pub result_body : TaskResult → Text
result_body result =
    codes "{\"success\":"
    ++ ((if result.success then codes "true" else codes "false")
        ++ (codes ",\"message\":" ++ (quoted result.output ++ codes "}")))

-- What a client method does with the network: nothing, because it has no worker identifier, or one
-- `postJSON` with a path and a body whose status must be the one expected.
pub record Request : Type 0 where
  pub path : Text
  pub body : Text
  pub expected : ℕ

unfoldable pub register_request : SchedulerClient → Text → ℤ → Option Request
register_request c address capacity =
    if is_empty c.worker_id
    then none
    else some (record {
      path = codes "/workers/register";
      body = register_body c.worker_id address capacity;
      expected = 201;
    })

unfoldable pub heartbeat_request : SchedulerClient → ℤ → List Text → Option Request
heartbeat_request c running_tasks active_task_ids =
    if is_empty c.worker_id
    then none
    else some (record {
      path = codes "/workers/heartbeat";
      body = heartbeat_body c.worker_id running_tasks active_task_ids;
      expected = 200;
    })

unfoldable pub result_request : SchedulerClient → TaskResult → Option Request
result_request c result =
    if is_empty c.worker_id
    then none
    else some (record {
      path = codes "/tasks/" ++ (result.task_id ++ codes "/complete");
      body = result_body result;
      expected = 200;
    })
