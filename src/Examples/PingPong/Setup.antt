-- ===== src/Examples/PingPong/Setup.antt =====
-- The example when both ends are set up.
use rdma_ai_platform.Common.{
  not, ◌||◌, ◌∙◌, arith, if_false, ◌≡◌, refl, true, false, some, [], inl, ℕ,
}
use rdma_ai_platform.Examples.PingPong.{
  Game, Pingpong, asks, listens, client_name, server_name, set_up, set_off,
}
use rdma_ai_platform.Examples.PingPong.Phases.{Calm, Asking}
use rdma_ai_platform.Rdma.Peers.Ready.{AllReady-nil, ensure_peer-Ensured}
use rdma_ai_platform.Text.{Text}
use rdma_ai_platform.Assoc.{find}
use rdma_ai_platform.Rdma.Fabric.{connect_through}
use rdma_ai_platform.Rdma.Peers as Peer
use rdma_ai_platform.Rdma.TransportRdma as Transport
use rdma_ai_platform.Rdma.RdmaClient as Client
use rdma_ai_platform.Rdma.RdmaServer as Server
use rdma_ai_platform.Rdma.Connection as Link
use rdma_ai_platform.Rdma.QueuePair as Pair
use rdma_ai_platform.Rdma.QueuePair.{bring_up, state_eq}
use rdma_ai_platform.Rdma.Handshake.{validate, build}
use rdma_ai_platform.Rdma.RdmaClient.{connect_accepted, connect}
use rdma_ai_platform.Rdma.RdmaServer.{accept}
use rdma_ai_platform.Rdma.Types.{TimePoint}
use rdma_ai_platform.Rdma.TransportRdma.Mailbox.{mailbox, mailbox-connect}

-- The pair once `main` has set it up.
abbrev ready_pair : TimePoint → Pingpong
ready_pair now =
    let p = set_up now in
    let (server, f, _) = accept client_name p.server p.fabric in
    let (client, g, _) = connect p.client f in
    record { client = client; server = server; fabric = g }

set_up-mailbox : (now : TimePoint) (j : Text) → mailbox (set_up now).fabric.transport j ≡ []
unfolding set_up mailbox find Transport.make
set_up-mailbox now j = refl

set_up-accepted :
    (now : TimePoint)
    → let p = set_up now in
      let (server, f, accepted) = accept client_name p.server p.fabric in
      (accepted ≡ true) × ((connect p.client f).2 ≡ true)
unfolding set_up accept connect connect_accepted Client.make Server.make validate build Link.make
    Link.establish Pair.make bring_up
set_up-accepted now = (refl, refl)

set_up-Calm :
    (now : TimePoint)
    → Calm 0 (ready_pair now).client (ready_pair now).server (ready_pair now).fabric
unfolding set_up accept connect connect_accepted Client.make Server.make validate build Link.make
    Link.establish Pair.make bring_up Server.ensure_peer Pair.is_ready_to_send connect_through
    state_eq
set_up-Calm now =
    let p = set_up now in
    let e =
      ensure_peer-Ensured server_name true client_name [] p.fabric (AllReady-nil server_name) in
    let served = (Peer.ensure_peer server_name true client_name [] p.fabric).2 in
    record {
      connected = record {
        transport = refl;
        established = refl;
        leads = record { ready = refl; config = refl };
      };
      client_named = refl;
      server_named = refl;
      leads = refl;
      transport = refl;
      ready = e.all_ready;
      to_client =
          mailbox-connect (ready_pair now).client.connection.queue_pair served.transport client_name
          ∙ e.mailboxes client_name
          ∙ set_up-mailbox now client_name;
      to_server =
          mailbox-connect (ready_pair now).client.connection.queue_pair served.transport server_name
          ∙ e.mailboxes server_name
          ∙ set_up-mailbox now server_name;
      next = refl;
    }

abbrev pub start : TimePoint → Game
start now = record {
  pair = ready_pair now;
  client_at = asks 0;
  server_at = listens 0;
  received = 0;
}

pub set_off-start : (now : TimePoint) → set_off now ≡ some (start now)
unfolding set_off
set_off-start now =
    let (accepted, connected) = set_up-accepted now in
    let up : (not (accept client_name (set_up now).server (set_up now).fabric).2
          || not
              (connect (set_up now).client
                (accept client_name (set_up now).server (set_up now).fabric).1).2)
        ≡ false =
      ground (arith, accepted, connected) in
    if_false _ _ _ up

pub start-Asking : (n : ℕ) (now : TimePoint) → Asking n 0 (start now)
start-Asking n now = record {
  client = refl;
  server = inl refl;
  calm = set_up-Calm now;
  received = refl;
  within = omega arith;
}
