-- ===== src/Mux/State/OfRun.antt =====
-- Every run of the actor keeps a property of the state.
use acp_mux.Base.{if_case, ℕ, refl, sym, List, [], ◌∷◌, String, length, leb, subst}
use acp_mux.Host.{Host}
use acp_mux.Core.{Subscriber}
use acp_mux.Core.New.{MuxOptions, new_core}
use acp_mux.Core.Send.{close_all_subscribers}
use acp_mux.Extension.{Mux, MuxExtension}
use acp_mux.Mux.Run.{
  MuxMsg, attaches, detaches, inbound_from_subscriber, agent_stdout_line, agent_stderr_line,
  agent_died, extension_wake, snapshot, Event, ttl_elapsed, message, channel_closed, running, Actor,
  sync_ttl, drain, handle_msg, is_death, receive, select, step, run, start,
}
use acp_mux.Mux.Steps.OfRun.{sync-mux}
use acp_mux.Mux.State.{KeepsState}
use acp_mux.Mux.State.OfParts.{attach_keeps, detach_keeps}
use acp_mux.Mux.State.OfSubscriber.{inbound_keeps}
use acp_mux.Mux.State.OfAgent.{agent_line_keeps}

module _ (h : Host) {E : Type 0} (x : MuxExtension E) {W P : Mux E → Type 0}
    (k : KeepsState x W P) where
  pub handle_msg_keeps : (msg : MuxMsg) (m : Mux E) → P m → P (handle_msg h x msg m)
  unfolding handle_msg close_all_subscribers
  handle_msg_keeps (attaches s) m p = attach_keeps h x k s m p
  handle_msg_keeps (detaches peer) m p = detach_keeps h x k peer m p
  handle_msg_keeps (inbound_from_subscriber peer bytes) m p = inbound_keeps h x k peer bytes m p
  handle_msg_keeps (agent_stdout_line line) m p = agent_line_keeps h x k line m p
  handle_msg_keeps (agent_stderr_line line) m p = p
  handle_msg_keeps agent_died m p = k.aside m _ refl p
  handle_msg_keeps (extension_wake payload) m p = k.wake m payload p
  handle_msg_keeps snapshot m p = p

  drain_keeps : (n : ℕ) (a : Actor E) → P a.mux → P (drain n a).mux
  unfolding drain close_all_subscribers
  drain_keeps n a p =
      if_case (λ (b : Actor E). P b.mux) (leb (length a.mux.core.agent_outbox) n)
        (k.aside a.mux _ refl p) (k.aside a.mux _ refl p)

  receive_keeps : (msg : MuxMsg) (n : ℕ) (a : Actor E) → P a.mux → P (receive h x msg n a).mux
  unfolding receive
  receive_keeps msg n a p =
      if_case (λ (b : Actor E). P b.mux) (is_death msg) (handle_msg_keeps msg a.mux p)
        (drain_keeps n (record a { mux = handle_msg h x msg a.mux }) (handle_msg_keeps msg a.mux p))

  select_keeps : (e : Event) (a : Actor E) → P a.mux → P (select h x e a).mux
  unfolding select
  select_keeps ttl_elapsed a p = if_case (λ (b : Actor E). P b.mux) a.ttl_active p p
  select_keeps (message msg n) a p = receive_keeps msg n a p
  select_keeps channel_closed a p = p

  step_keeps : (a : Actor E) (e : Event) → P a.mux → P (step h x a e).mux
  unfolding step
  step_keeps a e p =
      elim a.status
        as (λ s. P (elim s as (λ _. Actor E) [ running ↦ select h x e (sync_ttl a) | _ ↦ a ]).mux) [
          | running ↦ select_keeps e (sync_ttl a) (subst P (sym (sync-mux a)) p)
          | _ ↦ p
        ]

  pub run_keeps : (a : Actor E) (es : List Event) → P a.mux → P (run h x a es).mux
  unfolding run
  run_keeps a [] p = p
  run_keeps a (e ∷ es) p = run_keeps (step h x a e) es (step_keeps a e p)

  -- What holds of a new room holds in every state that the actor reaches.
  pub reach_keeps :
      (mux_id : String) (options : MuxOptions) (ext : E) (s : Subscriber) (es : List Event)
      → P (record { core = new_core h mux_id options; ext = ext })
      → P (run h x (start h x mux_id options ext s) es).mux
  unfolding start
  reach_keeps mux_id options ext s es p =
      run_keeps (start h x mux_id options ext s) es (attach_keeps h x k s _ p)
