-- ===== src/Worker/Http/Exchange.antt =====
-- A request to the scheduler and its answer.
use mathlib.Core.Path.{ap₂}
use rdma_ai_platform.Common.Int.{ℤ, pos}
use rdma_ai_platform.Common.{
  ◌==◌, ◌≡◌, ap, ◌∙◌, true, false, not, ◌||◌, some, List, [], ◌∷◌, ◌++◌, arith, ℕ, ◌<◌, ◌≤◌, ◌^◌,
  All, if_false, length,
}
use rdma_ai_platform.Text.{Text, codes, Lacks, is_empty}
use rdma_ai_platform.Worker.Http.Sending.{Writes, send_loop-completed, send_loop-enough}
use rdma_ai_platform.Worker.Http.Status.{
  Delivers, IsVersion, status_line, status_of_lem, recv_loop-Delivers,
}
use rdma_ai_platform.Worker.Http.{
  Posted, Network, Progress, completed, connect_any, request_text, send_loop, status_of, after_recv,
  after_send, post_to, post_json, is_expected, perform, register_worker, send_heartbeat,
  report_result,
}
use rdma_ai_platform.Worker.SchedulerClient.{
  Request, SchedulerClient, split_host_port, register_request, heartbeat_request, result_request,
  register_body, heartbeat_body, result_body,
}
use rdma_ai_platform.Worker.Task.{TaskResult}

-- A network that takes a request of `n` bytes: the host resolves, an address connects, each `send`
-- writes something, and there are enough of them.
pub record Takes (n : ℕ) (net : Network) : Type 0 where
  pub resolves : net.resolves ≡ true
  pub connects : connect_any net.connects ≡ true
  pub writes : All Writes net.sends
  pub enough : n ≤ length net.sends

send_loop-Takes :
    (text : Text) (net : Network)
    → Takes (length text) net
    → send_loop text net.sends [] ≡ (completed, text)
send_loop-Takes text net t =
    let done = send_loop-enough text net.sends [] t.writes t.enough in
    pair_path (send_loop text net.sends []) completed text done
      (send_loop-completed text net.sends [] done)
  where
    pair_path : (p : Progress × Text) (a : Progress) (b : Text) → p.0 ≡ a → p.1 ≡ b → p ≡ (a, b)
    pair_path p a b e f = ap₂ (λ x y. (x, y)) e f

post_to-Takes :
    (net : Network) (host port path body response : Text)
    → Takes (length (request_text path host port body)) net
    → Delivers net.answers response
    → post_to net host port path body
      ≡ record { wire = request_text path host port body; status = some (status_of response) }
unfolding post_to after_send after_recv
post_to-Takes net host port path body response t d =
    if_false _ _ _ passes
    ∙ ap (after_send net.answers) (send_loop-Takes (request_text path host port body) net t)
    ∙ ap (after_recv (request_text path host port body)) (recv_loop-Delivers [] d)
  where
    passes : (not net.resolves || not (connect_any net.connects)) ≡ false
    passes = ground (arith, t.resolves, t.connects)

-- `postJSON` to a good address over a network that takes the request, in whatever pieces, puts the
-- whole request on the wire, and returns the status code of the response that the network delivers,
-- in whatever pieces and with interruptions.
pub post_json_lem :
    (net : Network) (c : SchedulerClient) (path body host port version reason rest : Text)
    (code : ℕ)
    → split_host_port c.scheduler_addr ≡ some (host, port)
    → Takes (length (request_text path host port body)) net
    → Delivers net.answers (status_line version code reason ++ b'\r' ∷ b'\n' ∷ rest)
    → IsVersion version
    → code < 2 ^ 31
    → Lacks b'\r' reason
    → post_json net c path body
      ≡ record { wire = request_text path host port body; status = some (pos code) }
unfolding post_json
post_json_lem net c path body host port version reason rest code e t d v small h =
    rw (e, post_json)
      (post_to-Takes net host port path body _ t d
        ∙ ap (λ s. record { wire = request_text path host port body; status = some s })
            (status_of_lem version code reason rest v small h))

-- A method with a request to make, over a network that takes the request and delivers a status.
perform-Takes :
    (net : Network) (c : SchedulerClient) (r : Request) (n code : ℕ)
    (host port version reason rest : Text)
    → split_host_port c.scheduler_addr ≡ some (host, port)
    → Takes n net
    → length (request_text r.path host port r.body) ≤ n
    → Delivers net.answers (status_line version code reason ++ b'\r' ∷ b'\n' ∷ rest)
    → IsVersion version
    → code < 2 ^ 31
    → Lacks b'\r' reason
    → perform net c (some r) ≡ some (code == r.expected)
unfolding perform is_expected
perform-Takes net c r n code host port version reason rest e t fits d v small h =
    ap (λ (p : Posted). is_expected r.expected p.status)
      (post_json_lem net c r.path r.body host port version reason rest code e
        (record {
          resolves = t.resolves;
          connects = t.connects;
          writes = t.writes;
          enough = omega (arith, t.enough);
        })
        d v small h)

-- A network that takes `n` bytes and answers with a status line and whatever follows it.
pub record Answers (net : Network) (n code : ℕ) : Type 0 where
  pub takes : Takes n net
  pub version : Text
  pub reason : Text
  pub rest : Text
  pub delivers : Delivers net.answers (status_line version code reason ++ b'\r' ∷ b'\n' ∷ rest)
  pub proper : IsVersion version
  pub small : code < 2 ^ 31
  pub plain : Lacks b'\r' reason

-- A client with a worker identifier and a good address of the scheduler.
pub record IsConfigured (c : SchedulerClient) (host port : Text) : Type 0 where
  pub named : is_empty c.worker_id ≡ false
  pub address : split_host_port c.scheduler_addr ≡ some (host, port)

module _ (net : Network) (c : SchedulerClient) (host port : Text) (n code : ℕ)
    (configured : IsConfigured c host port) (answers : Answers net n code) where
  answered :
      (r : Request)
      → length (request_text r.path host port r.body) ≤ n
      → perform net c (some r) ≡ some (code == r.expected)
  answered r fits =
      perform-Takes net c r n code host port answers.version answers.reason answers.rest
        configured.address answers.takes fits answers.delivers answers.proper answers.small
        answers.plain

  -- Over a network that takes the request of a method in whatever pieces and delivers a response in
  -- whatever pieces, a configured client's methods tell the response's status code apart as they
  -- should: a registration has succeeded just when it is 201, a heartbeat and the report of a
  -- result when it is 200.
  pub methods_lem :
      (address : Text) (running : ℤ) (ids : List Text) (r : TaskResult)
      → length (
          request_text
            (codes "/workers/register")
            host
            port
            (register_body c.worker_id address running))
        ≤ n
      → length (
          request_text
            (codes "/workers/heartbeat")
            host
            port
            (heartbeat_body c.worker_id running ids))
        ≤ n
      → length (
          request_text
            (codes "/tasks/" ++ (r.task_id ++ codes "/complete"))
            host
            port
            (result_body r))
        ≤ n
      → (register_worker net c address running ≡ some (code == 201))
        × (send_heartbeat net c running ids ≡ some (code == 200))
        × (report_result net c r ≡ some (code == 200))
  unfolding register_worker send_heartbeat report_result register_request heartbeat_request
      result_request
  methods_lem address running ids r fits fits' fits'' = (
    ap (perform net c) (if_false _ _ _ configured.named) ∙ answered _ fits,
    ap (perform net c) (if_false _ _ _ configured.named) ∙ answered _ fits',
    ap (perform net c) (if_false _ _ _ configured.named) ∙ answered _ fits'',
  )
