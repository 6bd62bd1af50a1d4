-- ===== src/Rdma/Peers/Ready.antt =====
-- Every connection that `EnsurePeer` keeps may send, to the peer that it is kept under.
use mathlib.Core.Path.{subst₂}
use rdma_ai_platform.Assoc.{find-emplace_new, find, emplace, find-emplace}
use rdma_ai_platform.Common.{
  some_inj, sym, ap, ◌∙◌, ◌≡◌, refl, inl, inr, Bool, true, false, none, some, [], arith,
  if◌then◌else◌, Bool-cases, Option-cases,
}
use rdma_ai_platform.Rdma.Connection.Established.{establish-make}
use rdma_ai_platform.Rdma.Connection.{Connection, make, establish}
use rdma_ai_platform.Rdma.Fabric.{Fabric, connect_through}
use rdma_ai_platform.Rdma.Peers.{Peers, peer_config, ensure_peer}
use rdma_ai_platform.Rdma.QueuePair as Pair
use rdma_ai_platform.Rdma.QueuePair.{is_ready_to_send, state_eq}
use rdma_ai_platform.Rdma.TransportRdma.Mailbox.{mailbox, mailbox-connect}
use rdma_ai_platform.Text.{Text, text_eq, text_eq_iff}

-- A connection of `node` that may send to `peer`.
pub record Leads (node peer : Text) (c : Connection) : Type 0 where
  pub ready : is_ready_to_send c.queue_pair ≡ true
  pub config : c.queue_pair.config ≡ peer_config node peer

pub record AllReady (node : Text) (peers : Peers) : Type 0 where
  pub leads : (peer : Text) (c : Connection) → find peer peers ≡ some c → Leads node peer c

pub AllReady-nil : (node : Text) → AllReady node []
unfolding find
AllReady-nil node = record { leads = λ peer c e. cc }

abbrev new_connection : Text → Text → Connection
new_connection node peer = (establish (make (Pair.make (peer_config node peer)))).0

new_connection-Leads : (node peer : Text) → Leads node peer (new_connection node peer)
unfolding is_ready_to_send state_eq
new_connection-Leads node peer = record {
  ready = ap (λ r. is_ready_to_send r.0.queue_pair) (establish-make (peer_config node peer));
  config = ap (λ r. r.0.queue_pair.config) (establish-make (peer_config node peer));
}

-- What `EnsurePeer` returns leads to the peer asked for, all that is kept still does, and neither a
-- mailbox nor a buffer is changed.
pub record Ensured (node peer : Text) (f : Fabric) (result : Connection × Peers × Fabric)
    : Type 0 where
  pub leads : Leads node peer result.0
  pub all_ready : AllReady node result.1
  pub kept : find peer result.1 ≡ some result.0
  pub mailboxes : (j : Text) → mailbox result.2.transport j ≡ mailbox f.transport j
  pub heap : result.2.heap ≡ f.heap

connect_through-mailbox :
    (b : Bool) (c : Connection) (f : Fabric) (j : Text)
    → mailbox (if b then connect_through c.queue_pair f else f).transport j ≡ mailbox f.transport j
unfolding connect_through
connect_through-mailbox true c f j = mailbox-connect c.queue_pair f.transport j
connect_through-mailbox false c f j = refl

connect_through-heap :
    (b : Bool) (c : Connection) (f : Fabric)
    → (if b then connect_through c.queue_pair f else f).heap ≡ f.heap
unfolding connect_through
connect_through-heap true c f = refl
connect_through-heap false c f = refl

emplace-AllReady :
    (node peer : Text) (peers : Peers)
    → AllReady node peers
    → find peer peers ≡ none
    → AllReady node (emplace peer (new_connection node peer) peers)
emplace-AllReady node peer peers v e = record {
  leads = λ p c found. elim (Bool-cases (text_eq peer p)) [
    | inl same ↦
        let named : peer ≡ p = (text_eq_iff peer p).0 same in
        let new : some (new_connection node peer) ≡ some c =
          sym (find-emplace_new peer (new_connection node peer) peers e)
          ∙ ap (λ k. find k (emplace peer (new_connection node peer) peers)) named
          ∙ found in
        subst₂ (Leads node) named (some_inj new) (new_connection-Leads node peer)
    | inr other ↦ v.leads p c (ground (arith, find-emplace peer p (new_connection node peer) peers))
  ];
}

-- `EnsurePeer`, on peers whose connections may all send to the peer that they are kept under, gives
-- and keeps such a connection to the peer asked for, with or without a transport, and changes
-- neither a mailbox nor a buffer.
pub ensure_peer-Ensured :
    (node : Text) (b : Bool) (peer : Text) (peers : Peers) (f : Fabric)
    → AllReady node peers
    → Ensured node peer f (ensure_peer node b peer peers f)
unfolding ensure_peer
ensure_peer-Ensured node b peer peers f v = elim (Option-cases (find peer peers)) [
  | inr (c, e) ↦
      rw (e, ensure_peer)
        (record {
          leads = v.leads peer c e;
          all_ready = v;
          kept = e;
          mailboxes = λ j. refl;
          heap = refl;
        })
  | inl e ↦
      rw (e, ensure_peer)
        (record {
          leads = new_connection-Leads node peer;
          all_ready = emplace-AllReady node peer peers v e;
          kept = find-emplace_new peer (new_connection node peer) peers e;
          mailboxes = connect_through-mailbox b (new_connection node peer) f;
          heap = connect_through-heap b (new_connection node peer) f;
        })
]
