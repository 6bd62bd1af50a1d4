-- ===== src/Examples/PingPong/Answers.antt =====
-- The steps of the server in the example.
use rdma_ai_platform.Common.{
  dec_lt, ◌≡◌, refl, ap, sym, ◌∙◌, subst, ◌⊎◌, inl, inr, ◌≤◌, ◌<◌, not, ◌&&◌, true, false, [], ℕ,
  suc, arith, if_true, if_false, lt→ltb, ltb,
}
use rdma_ai_platform.Examples.PingPong.Mail.{
  is_quiet-nil, is_quiet-poll_result, mailbox-poll_result,
}
use rdma_ai_platform.Examples.PingPong.{
  Game, listens, answers, server_ended, client_name, server_name, pong, is_quiet, heard, answered,
  server_step,
}
use rdma_ai_platform.Rdma.Peers.Ready.{AllReady}
use rdma_ai_platform.Rdma.RdmaClient.{poll_result}
use rdma_ai_platform.Rdma.RdmaServer.Round.{send_result-ResultSent}
use rdma_ai_platform.Rdma.RdmaServer.{send_result}
use rdma_ai_platform.Rdma.TransportRdma.Mailbox.{mailbox}
use rdma_ai_platform.Text.{text_eq}
use rdma_ai_platform.Examples.PingPong.Phases.{
  IsReady, Asking, Sent, Serving, Replied, Over, named_apart, at_server, polled_result,
}

-- A server that has nothing to do waits on, or ends behind the last round.
idles :
    (n i : ℕ) (g : Game)
    → i ≤ n
    → IsReady n i g.server_at
    → (i < n → is_quiet g.pair.server.config.node_id g.pair.fabric ≡ true)
    → (server_step n false g.server_at g ≡ g)
      ⊎ (i ≡ n) × (server_step n false g.server_at g ≡ record g { server_at = server_ended })
unfolding server_step
idles n i g within (inr (last, e)) quiet = inl (ap (λ a. server_step n false a g) e)
idles n i g within (inl e) quiet = elim (dec_lt i n) [
  | yes less ↦
      let more : not (ltb i n) ≡ false = ap not (lt→ltb i n less) in
      let on : (is_quiet g.pair.server.config.node_id g.pair.fabric && not false) ≡ true =
        ground (arith, quiet less) in
      inl (ap (λ a. server_step n false a g) e ∙ if_false _ _ _ more ∙ if_true _ _ _ on)
  | no done ↦
      let over : not (ltb i n) ≡ true = ground arith in
      inr (omega arith, ap (λ a. server_step n false a g) e ∙ if_true _ _ _ over)
]

-- A phase in which the server has nothing to do is kept.
stays :
    (P : Game → Type 0) (n i : ℕ) (g : Game)
    → (server_step n false g.server_at g ≡ g)
      ⊎ (i ≡ n) × (server_step n false g.server_at g ≡ record g { server_at = server_ended })
    → P g
    → (i ≡ n → P (record g { server_at = server_ended }))
    → P (server_step n false g.server_at g)
stays P n i g (inl e) h ended = subst P (sym e) h
stays P n i g (inr (last, e)) h ended = subst P (sym e) (ended last)

pub Asking-idles :
    (n i : ℕ) (g : Game) → Asking n i g → Asking n i (server_step n false g.server_at g)
Asking-idles n i g v =
    stays (Asking n i) n i g
      (idles n i g v.within v.server (λ less.
        ap (λ k. is_quiet k g.pair.fabric) v.calm.server_named
        ∙ is_quiet-nil server_name g.pair.fabric v.calm.to_server))
      v
      (λ last. record {
        client = v.client;
        server = inr (last, refl);
        calm = v.calm;
        received = v.received;
        within = v.within;
      })

pub Replied-idles :
    (n i : ℕ) (g : Game) → Replied n i g → Replied n i (server_step n false g.server_at g)
Replied-idles n i g v =
    stays (Replied n i) n (suc i) g
      (idles n (suc i) g (omega (arith, v.within)) v.server (λ less. v.quiet)) v
      (λ last. record {
        client = v.client;
        server = inr (last, refl);
        quiet = v.quiet;
        mail = v.mail;
        result = v.result;
        after = v.after;
        read = v.read;
        calm = v.calm;
        received = v.received;
        within = v.within;
      })

pub Over-idles : (n : ℕ) (g : Game) → Over n g → Over n (server_step n false g.server_at g)
Over-idles n g v =
    stays (Over n) n n g (idles n n g (omega arith) v.server (λ less. absurd (omega arith))) v
      (λ last. record { client = v.client; server = inr (refl, refl); received = v.received })

-- The server takes the task.
pub Sent-Serving :
    (n i : ℕ) (g : Game) → Sent n i g → Serving n i (server_step n false g.server_at g)
unfolding server_step heard
Sent-Serving n i g v =
    let more : not (ltb i n) ≡ false = ap not (lt→ltb i n v.within) in
    let goes : (is_quiet g.pair.server.config.node_id g.pair.fabric && not false) ≡ false =
      ground (arith, v.mail) in
    at_server (Serving n i) n g (listens i) v.server (
      subst (Serving n i)
        (sym (if_false _ _ _ more ∙ if_false _ _ _ goes ∙ ap (λ p. heard i p g) v.read))
        (record {
          client = v.client;
          task = v.task;
          server = refl;
          calm = v.calm;
          received = v.received;
          within = v.within;
        }))

-- The server sends the result.
pub Serving-Replied :
    (n i : ℕ) (g : Game) → Serving n i g → Replied n i (server_step n false g.server_at g)
unfolding server_step answered
Serving-Replied n i g v =
    let c = g.pair.client in
    let s = g.pair.server in
    let r =
      send_result-ResultSent client_name (pong i v.task s) c s g.pair.fabric v.calm.ready
        v.calm.transport v.calm.connected.transport v.calm.client_named v.calm.to_client in
    let (s', f', _) = send_result client_name (pong i v.task s) s g.pair.fabric in
    let server_named = ap (λ k. k.node_id) r.config ∙ v.calm.server_named in
    let apart : text_eq c.config.node_id server_name ≡ false =
      ap (λ k. text_eq k server_name) v.calm.client_named ∙ named_apart.0 in
    let to_server : mailbox f'.transport server_name ≡ [] =
      sym (mailbox-poll_result c f' server_name v.calm.connected.transport apart)
      ∙ r.quiet server_name v.calm.to_server in
    at_server (Replied n i) n g (answers i v.task) v.server (record {
      client = v.client;
      server = inl (ap listens (omega arith));
      quiet = ap (λ k. is_quiet k f') server_named ∙ is_quiet-nil server_name f' to_server;
      mail = is_quiet-poll_result c f' _ r.read;
      result = _;
      after = (poll_result c f').1;
      read = polled_result (poll_result c f') c _ r.client r.read;
      calm = record {
        connected = v.calm.connected;
        client_named = v.calm.client_named;
        server_named = server_named;
        leads = v.calm.leads;
        transport = r.transport ∙ v.calm.transport;
        ready = subst (λ k. AllReady k.node_id s'.peers) (sym r.config) r.all_ready;
        to_client = r.quiet client_name v.calm.to_client;
        to_server = r.quiet server_name v.calm.to_server;
        next = v.calm.next;
      };
      received = v.received;
      within = v.within;
    })
