-- ===== src/Examples/PingPong/Mail.antt =====
-- What the polls of the example do to the mailboxes.
use rdma_ai_platform.Common.{
  ◌≡◌, refl, ap, ◌∙◌, true, false, none, some, [], ◌∷◌, List, arith, if_false,
}
use rdma_ai_platform.Examples.PingPong.{is_quiet, is_nil}
use rdma_ai_platform.Rdma.Fabric.Exchange.{mailbox-receive_through}
use rdma_ai_platform.Rdma.Fabric.{Fabric, receive_through}
use rdma_ai_platform.Rdma.RdmaClient.{RdmaClient, poll_result, read_result}
use rdma_ai_platform.Rdma.RdmaServer.Round.{poll_task-through, poll_result-through}
use rdma_ai_platform.Rdma.RdmaServer.{RdmaServer, poll_task, read_task}
use rdma_ai_platform.Rdma.ResultMessage.{ResultMessage}
use rdma_ai_platform.Rdma.TaskMessage.{TaskMessage}
use rdma_ai_platform.Rdma.TransportRdma.Mailbox.{mailbox, mailbox-poll_receive, first}
use rdma_ai_platform.Rdma.TransportRdma.{Message}
use rdma_ai_platform.Text.{Text, text_eq}

pub is_quiet-nil :
    (node : Text) (f : Fabric) → mailbox f.transport node ≡ [] → is_quiet node f ≡ true
unfolding is_quiet
is_quiet-nil node f e = ap is_nil e

receive_through-nil :
    (node : Text) (f : Fabric) → mailbox f.transport node ≡ [] → (receive_through node f).1 ≡ none
unfolding receive_through
receive_through-nil node f e = (mailbox-poll_receive node f.transport node).0 ∙ ap first e

poll_task-nil :
    (s : RdmaServer) (f : Fabric)
    → mailbox f.transport s.config.node_id ≡ []
    → (poll_task s f).2 ≡ none
unfolding poll_task read_task
poll_task-nil s f e = ground (arith, receive_through-nil s.config.node_id f e)

poll_result-nil :
    (c : RdmaClient) (f : Fabric)
    → mailbox f.transport c.config.node_id ≡ []
    → (poll_result c f).2 ≡ none
unfolding poll_result read_result
poll_result-nil c f e = ground (arith, receive_through-nil c.config.node_id f e)

-- A poll that finds something did not have to wait.
pub is_quiet-poll_task :
    (s : RdmaServer) (f : Fabric) (task : TaskMessage)
    → (poll_task s f).2 ≡ some task
    → is_quiet s.config.node_id f ≡ false
unfolding is_quiet
is_quiet-poll_task s f task read = by_inbox (mailbox f.transport s.config.node_id) refl
  where
    by_inbox :
        (inbox : List Message)
        → mailbox f.transport s.config.node_id ≡ inbox
        → is_nil (mailbox f.transport s.config.node_id) ≡ false
    by_inbox [] e = cc (poll_task-nil s f e, read)
    by_inbox (m ∷ ms) e = ap is_nil e

pub is_quiet-poll_result :
    (c : RdmaClient) (f : Fabric) (r : ResultMessage)
    → (poll_result c f).2 ≡ some r
    → is_quiet c.config.node_id f ≡ false
unfolding is_quiet
is_quiet-poll_result c f r read = by_inbox (mailbox f.transport c.config.node_id) refl
  where
    by_inbox :
        (inbox : List Message)
        → mailbox f.transport c.config.node_id ≡ inbox
        → is_nil (mailbox f.transport c.config.node_id) ≡ false
    by_inbox [] e = cc (poll_result-nil c f e, read)
    by_inbox (m ∷ ms) e = ap is_nil e

-- A poll leaves the mailboxes of others alone.
pub mailbox-poll_task :
    (s : RdmaServer) (f : Fabric) (j : Text)
    → s.has_transport ≡ true
    → text_eq s.config.node_id j ≡ false
    → mailbox (poll_task s f).1.transport j ≡ mailbox f.transport j
mailbox-poll_task s f j up other =
    ap (λ (g : Fabric). mailbox g.transport j) (poll_task-through s f up).1
    ∙ mailbox-receive_through s.config.node_id f j
    ∙ if_false _ _ _ other

pub mailbox-poll_result :
    (c : RdmaClient) (f : Fabric) (j : Text)
    → c.has_transport ≡ true
    → text_eq c.config.node_id j ≡ false
    → mailbox (poll_result c f).1.transport j ≡ mailbox f.transport j
mailbox-poll_result c f j up other =
    ap (λ (g : Fabric). mailbox g.transport j) (poll_result-through c f up).1
    ∙ mailbox-receive_through c.config.node_id f j
    ∙ if_false _ _ _ other
