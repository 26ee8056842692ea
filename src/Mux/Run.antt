-- ===== src/Mux/Run.antt =====
-- crates/acp-mux/src/mux/actor.rs: `run_mux`, the actor's loop, as a step on the events that it waits
-- for. The agent's stdin is the list of the frames that it has accepted.
use acp_mux.Base.{
  ℕ, zero, suc, String, Bool, true, false, not, ◌&&◌, List, [], ◌∷◌, ◌++◌, if◌then◌else◌, length,
  leb,
}
use acp_mux.Host.{Host, Bytes}
use acp_mux.Core.{Subscriber}
use acp_mux.Core.New.{MuxOptions, new_core}
use acp_mux.Core.Send.{close_all_subscribers}
use acp_mux.Extension.{Mux, MuxExtension, over_core}
use acp_mux.Mux.Attach.{attach, detach}
use acp_mux.Mux.Inbound.{handle_inbound}
use acp_mux.Mux.Agent.{handle_agent_line}

abbrev pub ws_close_agent_dead : ℕ
ws_close_agent_dead = 1011

pub data MuxMsg : Type 0 where
  attaches : Subscriber → MuxMsg
  detaches : String → MuxMsg
  inbound_from_subscriber : String → Bytes → MuxMsg
  agent_stdout_line agent_stderr_line : Bytes → MuxMsg
  agent_died : MuxMsg
  extension_wake : Bytes → MuxMsg
  snapshot : MuxMsg

-- What `select!` may see: the timer, a message with the number of frames that the agent's stdin takes
-- before it fails, or the end of the channel.
pub data Event : Type 0 where
  ttl_elapsed : Event
  message : MuxMsg → ℕ → Event
  channel_closed : Event

pub data Status : Type 0 where
  running ttl_expired no_senders agent_gone write_failed : Status

pub record Actor (E : Type 0) : Type 0 where
  pub mux : Mux E
  pub ttl_active : Bool
  pub agent_input : List Bytes
  pub status : Status

abbrev pub no_one : {A : Type 0} → List A → Bool
no_one [] = true
no_one (x ∷ xs) = false

abbrev pub take {ℓ} : {A : Type ℓ} → ℕ → List A → List A
take zero xs = []
take (suc n) [] = []
take (suc n) (x ∷ xs) = x ∷ take n xs

module _ {E : Type 0} where
  -- The timer runs exactly while nobody is attached.
  unfoldable pub sync_ttl : Actor E → Actor E
  sync_ttl a =
      if no_one a.mux.core.subscribers && not a.ttl_active
      then record a { ttl_active = true }
      else if not (no_one a.mux.core.subscribers) && a.ttl_active
      then record a { ttl_active = false }
      else a

  -- `drain_agent_outbox`, and the end of the actor if a write fails.
  unfoldable pub drain : ℕ → Actor E → Actor E
  drain writes a =
      let outbox = a.mux.core.agent_outbox in
      let emptied = over_core (λ c. record c { agent_outbox = [] }) a.mux in
      if leb (length outbox) writes
      then record a { mux = emptied; agent_input = a.agent_input ++ outbox }
      else record a {
        mux =
            over_core (close_all_subscribers ws_close_agent_dead "agent stdin write failed")
              emptied;
        agent_input = a.agent_input ++ take writes outbox;
        status = write_failed;
      }

abbrev pub is_death : MuxMsg → Bool
is_death agent_died = true
is_death _ = false

module _ (h : Host) {E : Type 0} (x : MuxExtension E) where
  -- The actor starts with its first subscriber attached.
  unfoldable pub start : String → MuxOptions → E → Subscriber → Actor E
  start mux_id options ext s = record {
    mux = (attach x s (record { core = new_core h mux_id options; ext = ext })).0;
    ttl_active = false;
    agent_input = [];
    status = running;
  }

  unfoldable pub handle_msg : MuxMsg → Mux E → Mux E
  handle_msg (attaches s) m = (attach x s m).0
  handle_msg (detaches peer) m = detach x peer m
  handle_msg (inbound_from_subscriber peer bytes) m = handle_inbound h x peer bytes m
  handle_msg (agent_stdout_line line) m = handle_agent_line h x line m
  handle_msg (agent_stderr_line line) m = m
  handle_msg agent_died m =
      over_core (close_all_subscribers ws_close_agent_dead "agent subprocess exited") m
  handle_msg (extension_wake payload) m = x.on_wake m payload
  handle_msg snapshot m = m

  unfoldable pub receive : MuxMsg → ℕ → Actor E → Actor E
  receive msg writes a =
      let handled = record a { mux = handle_msg msg a.mux } in
      if is_death msg then record handled { status = agent_gone } else drain writes handled

  unfoldable pub select : Event → Actor E → Actor E
  unfolding receive
  select ttl_elapsed a = if a.ttl_active then record a { status = ttl_expired } else a
  select channel_closed a = record a { status = no_senders }
  select (message msg writes) a = receive msg writes a

  unfoldable pub step : Actor E → Event → Actor E
  unfolding select
  step a e = elim a.status [ running ↦ select e (sync_ttl a) | _ ↦ a ]

  unfoldable pub run : Actor E → List Event → Actor E
  run a [] = a
  run a (e ∷ es) = run (step a e) es

  -- What the actor becomes on these events after its start.
  abbrev pub reach : String → MuxOptions → E → Subscriber → List Event → Actor E
  reach mux_id options ext s es = run (start mux_id options ext s) es
