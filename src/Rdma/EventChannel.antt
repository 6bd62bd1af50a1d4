-- ===== src/Rdma/EventChannel.antt =====
-- rdma/include/rdma/event_channel.h and rdma/src/event_channel.cpp. Each method runs under the
-- object's mutex and is one step; `wait` is the step at which the wait for the flag or the time
-- limit ends.
use rdma_ai_platform.Common.{
  ℕ, Bool, true, false, List, [], ◌∷◌, Option, none, some, if◌then◌else◌, get_elem?, set,
}

pub record EventChannel : Type 0 where
  pub signaled : Bool

unfoldable pub notify : EventChannel → EventChannel
notify c = record c { signaled = true }

unfoldable pub wait : EventChannel → EventChannel × Bool
wait c = if c.signaled then (record c { signaled = false }, true) else (c, false)

unfoldable pub reset : EventChannel → EventChannel
reset c = record c { signaled = false }

-- The channels of a program, by their address.
abbrev pub Channels : Type 0
Channels = List EventChannel

-- `if (channel != nullptr) channel->Notify();`
unfoldable pub notify_at : Option ℕ → Channels → Channels
unfolding notify
notify_at none cs = cs
notify_at (some i) cs = elim (get_elem? cs i) [ none ↦ cs | some c ↦ set cs i (notify c) ]

unfoldable pub notify_all : List (Option ℕ) → Channels → Channels
notify_all [] cs = cs
notify_all (p ∷ ps) cs = notify_all ps (notify_at p cs)
