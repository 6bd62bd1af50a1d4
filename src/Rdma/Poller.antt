-- ===== src/Rdma/Poller.antt =====
-- rdma/include/rdma/poller.h and rdma/src/poller.cpp. A round of the poller's thread is one step;
-- the handlers' calls are its results. A null pointer and an empty handler are false flags.
pub mod Drain
use rdma_ai_platform.Common.{
  zero, suc, Bool, true, false, ◌&&◌, Option, none, some, List, [], ◌∷◌, ◌++◌, if◌then◌else◌, ℕ,
}
use rdma_ai_platform.Rdma.CompletionQueue.{CompletionQueue, CompletionEvent, poll}
use rdma_ai_platform.Rdma.TransportRdma.{TransportRdma, Message, poll_receive}
use rdma_ai_platform.Text.{Text}

pub record Poller : Type 0 where
  pub has_transport : Bool
  pub node_id : Text
  pub has_completions : Bool
  pub running : Bool
  pub has_thread : Bool
  pub on_message : Bool
  pub on_completion : Bool

-- `Start`: the thread is there from now on.
unfoldable pub start : Bool → Bool → Poller → Poller × Bool
start on_message on_completion p = if p.running then (p, false) else (
  record p {
    running = true;
    has_thread = true;
    on_message = on_message;
    on_completion = on_completion;
  },
  true,
)

-- `Stop`: the flag is cleared and the thread joined.
unfoldable pub stop : Poller → Poller
stop p = record p { running = false; has_thread = false }

-- What the thread works on, and the calls that it has made.
pub record Polled : Type 0 where
  pub transport : TransportRdma
  pub completions : CompletionQueue
  pub messages : List Message
  pub events : List CompletionEvent

abbrev pub append_some {ℓ} : {A : Type ℓ} → List A → Option A → List A
append_some xs none = xs
append_some xs (some x) = xs ++ x ∷ []

unfoldable pub receive : Poller → Polled → Polled
receive p s =
    let (t, message) = poll_receive p.node_id s.transport in
    record s { transport = t; messages = append_some s.messages message }

unfoldable pub complete : Polled → Polled
complete s =
    let (cq, event) = poll s.completions in
    record s { completions = cq; events = append_some s.events event }

-- The body of the loop.
unfoldable pub round : Poller → Polled → Polled
unfolding receive complete
round p s =
    let s' = if p.has_transport && p.on_message then receive p s else s in
    if p.has_completions && p.on_completion then complete s' else s'

-- The loop while the flag is set, for `n` rounds.
unfoldable pub rounds : ℕ → Poller → Polled → Polled
rounds zero p s = s
rounds (suc n) p s = if p.running then rounds n p (round p s) else s
