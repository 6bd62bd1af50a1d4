-- ===== src/Tests/Http.antt =====
-- Requests to the scheduler.
use rdma_ai_platform.Common.Int.{pos}
use rdma_ai_platform.Common.{
  ◌==◌, ◌≡◌, refl, some, true, false, [], ◌∷◌, arith, replicate, All-replicate, length,
}
use rdma_ai_platform.Text.{Text, codes, split_at, strip_prefix}
use rdma_ai_platform.Text.Decimal.{to_string}
use rdma_ai_platform.Worker.Http.Exchange.{Takes, Answers, IsConfigured, post_json_lem, methods_lem}
use rdma_ai_platform.Worker.Http.Sending.{Writes}
use rdma_ai_platform.Worker.Http.Status.{Delivers, brings, retries, ends, IsVersion}
use rdma_ai_platform.Worker.Http.{
  chunk, closed, interrupted, Network, connect_any, request_text, post_json, register_worker,
  send_heartbeat, report_result,
}
use rdma_ai_platform.Worker.SchedulerClient.{
  escape_json_string, escape_byte, print_int, active_member, id_list, SchedulerClient,
  split_host_port, split_last, register_body, heartbeat_body, result_body,
}
use rdma_ai_platform.Worker.Task.{TaskResult}

abbrev network : Network
network = record {
  resolves = true;
  connects = false ∷ true ∷ [];
  sends = replicate 200 (some 64);
  answers =
      chunk (codes "HTTP/1.1 2") ∷ interrupted ∷ chunk (codes "01 Created\r\nX: y") ∷ closed ∷ [];
}

abbrev client : SchedulerClient
client = record { scheduler_addr = codes "http://h:80/"; worker_id = codes "w1" }

abbrev request : Text
request = request_text (codes "/p") (codes "h") (codes "80") (codes "{}")

network-Takes : Takes (length request) network
unfolding connect_any request_text to_string
network-Takes = record {
  resolves = refl;
  connects = refl;
  writes = All-replicate Writes 200 (some 64) (omega arith);
  enough = omega arith;
}

network-Delivers : Delivers network.answers (codes "HTTP/1.1 201 Created\r\nX: y")
network-Delivers =
    brings (codes "HTTP/1.1 2") (retries (brings (codes "01 Created\r\nX: y") (ends [])))

http-IsVersion : IsVersion (codes "HTTP/1.1")
http-IsVersion = record {
  some_word = λ e. cc;
  word = (refl, (refl, (refl, (refl, (refl, (refl, (refl, (refl, tt))))))));
  line = omega arith;
}

post_json_lem_example :
    post_json network client (codes "/p") (codes "{}")
    ≡ record { wire = request; status = some (pos 201) }
unfolding split_host_port split_last to_string split_at strip_prefix
post_json_lem_example =
    post_json_lem network client (codes "/p") (codes "{}") (codes "h") (codes "80")
      (codes "HTTP/1.1") (codes "Created") (codes "X: y") 201 refl network-Takes network-Delivers
      http-IsVersion (omega arith) (omega arith)

abbrev outcome : TaskResult
outcome = record { task_id = codes "t1"; output = codes "ok"; success = true }

-- A network that would take requests of 400 bytes.
abbrev wide : Network
wide = record network { sends = replicate 400 (some 64) }

wide-Answers : Answers wide 400 201
unfolding connect_any to_string
wide-Answers = record {
  takes = record {
    resolves = refl;
    connects = refl;
    writes = All-replicate Writes 400 (some 64) (omega arith);
    enough = omega arith;
  };
  version = codes "HTTP/1.1";
  reason = codes "Created";
  rest = codes "X: y";
  delivers = network-Delivers;
  proper = http-IsVersion;
  small = omega arith;
  plain = omega arith;
}

client-IsConfigured : IsConfigured client (codes "h") (codes "80")
unfolding split_host_port split_last split_at strip_prefix
client-IsConfigured = record { named = refl; address = refl }

methods_lem_example :
    (register_worker wide client (codes "a:1") (pos 4) ≡ some (201 == 201))
    × (send_heartbeat wide client (pos 4) (codes "t1" ∷ []) ≡ some (201 == 200))
    × (report_result wide client outcome ≡ some (201 == 200))
unfolding request_text to_string register_body heartbeat_body result_body escape_json_string
    escape_byte print_int active_member id_list
methods_lem_example =
    methods_lem wide client (codes "h") (codes "80") 400 201 client-IsConfigured wide-Answers
      (codes "a:1") (pos 4) (codes "t1" ∷ []) outcome (omega arith) (omega arith) (omega arith)
