-- ===== src/Mux/Steps/OfRun.antt =====
-- The actor's loop as steps of the core: what the core's steps keep, every run keeps.
use acp_mux.Base.{if_case, ℕ, ◌≡◌, refl, List, [], ◌∷◌, String, ◌&&◌, not, length, leb, subst}
use acp_mux.Host.{Host}
use acp_mux.Core.{MuxCore, Subscriber}
use acp_mux.Core.New.{MuxOptions, new_core}
use acp_mux.Extension.{Mux, MuxExtension, KeepsToCtx}
use acp_mux.Mux.Run.{
  MuxMsg, attaches, detaches, inbound_from_subscriber, agent_stdout_line, agent_stderr_line,
  agent_died, extension_wake, snapshot, Event, ttl_elapsed, message, channel_closed, running, Actor,
  no_one, sync_ttl, drain, handle_msg, is_death, receive, select, step, run, start,
  ws_close_agent_dead,
}
use acp_mux.Mux.Steps.{CoreStep, CoreSteps, here, trans, one, of_ctx, shuts, drains, keep_core}
use acp_mux.Mux.Steps.Frames.{attach-CoreSteps, detach-CoreSteps}
use acp_mux.Mux.Steps.FromSubscriber.{inbound-CoreSteps}
use acp_mux.Mux.Steps.FromAgent.{agent_line-CoreSteps}

pub sync-mux : {E : Type 0} (a : Actor E) → (sync_ttl a).mux ≡ a.mux
unfolding sync_ttl
sync-mux {E} a =
    if_case (λ (b : Actor E). b.mux ≡ a.mux) (no_one a.mux.core.subscribers && not a.ttl_active)
      refl
      (if_case (λ (b : Actor E). b.mux ≡ a.mux)
        (not (no_one a.mux.core.subscribers) && a.ttl_active) refl refl)

module _ {h : Host} {E : Type 0} (x : MuxExtension E) (k : KeepsToCtx h x) where
  pub handle_msg-CoreSteps :
      (msg : MuxMsg) (m : Mux E) → CoreSteps h m.core (handle_msg h x msg m).core
  unfolding handle_msg
  handle_msg-CoreSteps (attaches s) m = attach-CoreSteps x k s m
  handle_msg-CoreSteps (detaches peer) m = detach-CoreSteps x k peer m
  handle_msg-CoreSteps (inbound_from_subscriber peer bytes) m = inbound-CoreSteps x k peer bytes m
  handle_msg-CoreSteps (agent_stdout_line line) m = agent_line-CoreSteps x k line m
  handle_msg-CoreSteps (agent_stderr_line line) m = here
  handle_msg-CoreSteps agent_died m = one (shuts ws_close_agent_dead _ refl)
  handle_msg-CoreSteps (extension_wake payload) m = of_ctx (k.wake m payload)
  handle_msg-CoreSteps snapshot m = here

  drain-CoreSteps : (n : ℕ) (a : Actor E) → CoreSteps h a.mux.core (drain n a).mux.core
  unfolding drain
  drain-CoreSteps n a =
      if_case (λ (b : Actor E). CoreSteps h a.mux.core b.mux.core)
        (leb (length a.mux.core.agent_outbox) n) (one (drains refl))
        (trans (one (drains refl)) (one (shuts ws_close_agent_dead _ refl)))

  receive-CoreSteps :
      (msg : MuxMsg) (n : ℕ) (a : Actor E) → CoreSteps h a.mux.core (receive h x msg n a).mux.core
  unfolding receive
  receive-CoreSteps msg n a =
      if_case (λ (b : Actor E). CoreSteps h a.mux.core b.mux.core) (is_death msg)
        (handle_msg-CoreSteps msg a.mux)
        (trans (handle_msg-CoreSteps msg a.mux)
          (drain-CoreSteps n (record a { mux = handle_msg h x msg a.mux })))

  select-CoreSteps : (e : Event) (a : Actor E) → CoreSteps h a.mux.core (select h x e a).mux.core
  unfolding select
  select-CoreSteps ttl_elapsed a =
      if_case (λ (b : Actor E). CoreSteps h a.mux.core b.mux.core) a.ttl_active here here
  select-CoreSteps (message msg n) a = receive-CoreSteps msg n a
  select-CoreSteps channel_closed a = here

  pub step-CoreSteps : (a : Actor E) (e : Event) → CoreSteps h a.mux.core (step h x a e).mux.core
  unfolding step
  step-CoreSteps a e =
      let there : CoreSteps h a.mux.core (select h x e (sync_ttl a)).mux.core =
        subst (λ (m : Mux E). CoreSteps h m.core (select h x e (sync_ttl a)).mux.core) (sync-mux a)
          (select-CoreSteps e (sync_ttl a)) in
      (elim a.status
        as (λ s.
          CoreSteps h a.mux.core
            (elim s as (λ _. Actor E) [ running ↦ select h x e (sync_ttl a) | _ ↦ a ]).mux.core) [
              | running ↦ there
              | _ ↦ here
            ])

  pub run-CoreSteps :
      (a : Actor E) (es : List Event) → CoreSteps h a.mux.core (run h x a es).mux.core
  unfolding run
  run-CoreSteps a [] = here
  run-CoreSteps a (e ∷ es) = trans (step-CoreSteps a e) (run-CoreSteps (step h x a e) es)

  -- What each step of the core keeps holds after any run.
  pub keep_run {ℓ} :
      (P : MuxCore → Type ℓ)
      → ((c d : MuxCore) → CoreStep h c d → P c → P d)
      → (a : Actor E) (es : List Event) → P a.mux.core
      → P (run h x a es).mux.core
  keep_run P keep a es = keep_core P keep (run-CoreSteps a es)

  -- What holds of a new core holds in every state that the actor reaches.
  pub keep_reachable {ℓ} :
      (P : MuxCore → Type ℓ)
      → ((c d : MuxCore) → CoreStep h c d → P c → P d)
      → (mux_id : String) (options : MuxOptions) (ext : E) (s : Subscriber) (es : List Event)
      → P (new_core h mux_id options)
      → P (run h x (start h x mux_id options ext s) es).mux.core
  unfolding start
  keep_reachable P keep mux_id options ext s es p =
      keep_run P keep (start h x mux_id options ext s) es
        (keep_core P keep (attach-CoreSteps x k s _) p)
