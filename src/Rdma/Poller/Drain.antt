-- ===== src/Rdma/Poller/Drain.antt =====
-- A running poller empties its node's mailbox in order.
use rdma_ai_platform.Common.{
  if_true, ap, ◌∙◌, append_assoc, tail, ◌≡◌, sym, true, List, [], ◌∷◌, ◌++◌, append-nil, arith,
  length,
}
use rdma_ai_platform.Rdma.Poller.{Poller, Polled, receive, complete, round, rounds, append_some}
use rdma_ai_platform.Rdma.TransportRdma.Mailbox.{mailbox, mailbox-poll_receive, first}
use rdma_ai_platform.Rdma.TransportRdma.{Message}
use rdma_ai_platform.Text.{text_eq_refl}

pub record Listens (p : Poller) : Type 0 where
  pub running : p.running ≡ true
  pub transport : p.has_transport ≡ true
  pub handler : p.on_message ≡ true

receive-mailbox :
    (p : Poller) (s : Polled) (ms : List Message)
    → mailbox s.transport p.node_id ≡ ms
    → ((receive p s).messages ≡ append_some s.messages (first ms))
      × (mailbox (receive p s).transport p.node_id ≡ tail ms)
unfolding receive
receive-mailbox p s ms e =
    ground (arith, mailbox-poll_receive p.node_id s.transport p.node_id, text_eq_refl p.node_id)

round-messages :
    (p : Poller) (s : Polled)
    → Listens p
    → ((round p s).messages ≡ (receive p s).messages)
      × ((round p s).transport ≡ (receive p s).transport)
unfolding round complete
round-messages p s v = ground arith

-- In as many rounds as messages wait, a running poller with a transport and a message handler hands
-- all of them to the handler, oldest first, behind those that it had handed over before.
pub rounds-messages :
    (ms : List Message) (p : Poller) (s : Polled)
    → Listens p
    → mailbox s.transport p.node_id ≡ ms
    → ((rounds (length ms) p s).messages ≡ s.messages ++ ms)
      × (mailbox (rounds (length ms) p s).transport p.node_id ≡ [])
unfolding rounds
rounds-messages [] p s v e = (sym (append-nil s.messages), e)
rounds-messages (m ∷ ms) p s v e =
    let (same, same') = round-messages p s v in
    let (got, left) = receive-mailbox p s (m ∷ ms) e in
    let rest = ap (λ t. mailbox t p.node_id) same' ∙ left in
    let (handed, empty) = rounds-messages ms p (round p s) v rest in
    let more = if_true p.running (rounds (length ms) p (round p s)) s v.running in
    (
      ap (λ r. r.messages) more
          ∙ handed
          ∙ ap (λ l. l ++ ms) (same ∙ got)
          ∙ append_assoc s.messages (m ∷ []) ms,
      ap (λ r. mailbox r.transport p.node_id) more ∙ empty,
    )
