-- ===== src/Mux/Proofs/Session.antt =====
-- The handshake: once a result is cached, the agent is not asked again.
use acp_mux.Base.{
  ℕ, ◌≡◌, ◌≢◌, refl, String, true, List, Option, none, some, is_some, eq_nat, eq_text,
}
use acp_mux.Json.{Value}
use acp_mux.Jsonrpc.{IncomingRequest, IncomingResponse}
use acp_mux.Base.Map
use acp_mux.Mux.Agent.{mux_id_of, complete_handshake, answer_pending, route_agent_response}
use acp_mux.Mux.Session.{apply_successful_handshake}
use acp_mux.Mux.Steps.{keep_core, trans, of_ctx}
use acp_mux.Mux.Steps.FromAgent.{deliver-CoreSteps}
use acp_mux.Host.{Host}
use acp_mux.Core.{HandshakeKind, initialize, session_new, session_load, PendingRequest}
use acp_mux.Core.Send.{send_result_response}
use acp_mux.Extension.{Mux, MuxExtension, KeepsToCtx, over_core}
use acp_mux.Mux.Inbound.{translate_outbound_request, answer_or_offer}
use acp_mux.Mux.Run.{Actor, Event, run}
use acp_mux.Mux.Steps.OfRun.{keep_run}
use acp_mux.Mux.Steps.OfSession.{Handshake, handshake_of, keep_session}

-- What was cached or established before stays so, whatever its value becomes.
abbrev pub Established : Handshake → Handshake → Type 0
Established s t =
    (is_some s.initialize_cache ≡ true → is_some t.initialize_cache ≡ true)
    × (is_some s.session_new_cache ≡ true → is_some t.session_new_cache ≡ true)
    × (is_some s.canonical_session_id ≡ true → is_some t.canonical_session_id ≡ true)
    × (t.client_tool_policy ≡ s.client_tool_policy)

value_of {ℓ} : {A : Type ℓ} (o : Option A) → is_some o ≡ true → (v : A) × (o ≡ some v)
value_of none e = cc
value_of (some v) e = (v, refl)

module _ {h : Host} {E : Type 0} (x : MuxExtension E) (k : KeepsToCtx h x) where
  -- Whatever happens, a cached result stays cached, an established session id stays established, and
  -- the policy does not change.
  pub run-Established :
      (a : Actor E) (es : List Event)
      → Established (handshake_of a.mux.core) (handshake_of (run h x a es).mux.core)
  run-Established a es =
      keep_run x k (λ c. Established (handshake_of a.mux.core) (handshake_of c))
        (keep_session (Established (handshake_of a.mux.core))
          (λ s v e. ((λ _. refl), e.1, e.2, e.3)) (λ s v e. (e.0, (λ _. refl), e.2, e.3))
          (λ s v e. (e.0, e.1, (λ _. refl), e.3)))
        a es ((λ p. p), (λ p. p), (λ p. p), refl)

  answer_initialize :
      (peer : String) (req : IncomingRequest) (v : Value) (m : Mux E)
      → req.method ≡ "initialize"
      → m.core.initialize_cache ≡ some v
      → translate_outbound_request h x peer req m
        ≡ over_core (send_result_response h peer req.id v) m
  unfolding translate_outbound_request
  answer_initialize peer req v m method cached =
      rw (method, translate_outbound_request) (rw (cached, answer_or_offer))

  answer_session_new :
      (peer : String) (req : IncomingRequest) (v : Value) (m : Mux E)
      → req.method ≡ "session/new"
      → m.core.session_new_cache ≡ some v
      → translate_outbound_request h x peer req m
        ≡ over_core (send_result_response h peer req.id v) m
  unfolding translate_outbound_request
  answer_session_new peer req v m method cached =
      rw (method, translate_outbound_request) (rw (cached, answer_or_offer))

  -- After a result of `initialize` was cached, and whatever happened since, such a request of any peer
  -- is answered by a cached result under its own id. Nothing else changes: the agent sees no second
  -- request, and the extension none.
  pub initialize_from_cache :
      (a : Actor E) (es : List Event) (peer : String) (req : IncomingRequest)
      → req.method ≡ "initialize"
      → is_some a.mux.core.initialize_cache ≡ true
      → let later = (run h x a es).mux in
        (v : Value) × (later.core.initialize_cache ≡ some v)
        × (translate_outbound_request h x peer req later
            ≡ over_core (send_result_response h peer req.id v) later)
  initialize_from_cache a es peer req method cached =
      let (v, e) = value_of _ ((run-Established a es).0 cached) in
      (v, e, answer_initialize peer req v _ method e)

  shaken-Cached :
      (resp : IncomingResponse) (kind : HandshakeKind) (m : Mux E)
      → kind ≢ initialize
      → resp.error ≡ none
      → is_some (complete_handshake h x resp (some kind) m).core.session_new_cache ≡ true
  unfolding complete_handshake apply_successful_handshake
  shaken-Cached resp initialize m opens fine = absurd (opens refl)
  shaken-Cached resp session_new m opens fine = rw fine refl
  shaken-Cached resp (session_load loaded) m opens fine = rw fine refl

  -- What follows the handshake of a response keeps the cache.
  answered-Cached :
      (n : ℕ) (resp : IncomingResponse) (p : PendingRequest) (kind : HandshakeKind) (m : Mux E)
      → p.handshake ≡ some kind
      → kind ≢ initialize
      → resp.error ≡ none
      → is_some (answer_pending h x n resp p m).core.session_new_cache ≡ true
  unfolding answer_pending
  answered-Cached n resp p kind m shakes opens fine =
      rw (shakes, answer_pending)
        (keep_core (λ c. is_some c.session_new_cache ≡ true)
          (keep_session (λ s. is_some s.session_new_cache ≡ true) (λ s v e. e) (λ s v e. refl)
            (λ s v e. e))
          (trans (of_ctx (k.agent_response _ n _)) (deliver-CoreSteps x k p _ _))
          (shaken-Cached (record resp { id = p.original_id }) kind _ opens fine))

  -- With an extension that keeps to its operations: the agent has answered a pending `session/new` or
  -- `session/load` without an error. Whatever happened since, a `session/new` of any peer is answered from
  -- the cache under its own id. Nothing else changes: the agent opens no second session, and the extension
  -- sees no request.
  pub session_from_cache :
      (a : Actor E) (n : ℕ) (resp : IncomingResponse) (p : PendingRequest) (kind : HandshakeKind)
      (es : List Event) (peer : String) (req : IncomingRequest)
      → mux_id_of resp.id ≡ some n
      → Map.get n a.mux.core.pending ≡ some p
      → p.handshake ≡ some kind
      → kind ≢ initialize
      → resp.error ≡ none
      → req.method ≡ "session/new"
      → let opened = record a { mux = route_agent_response h x resp a.mux } in
        let later = (run h x opened es).mux in
        (v : Value) × (later.core.session_new_cache ≡ some v)
        × (translate_outbound_request h x peer req later
            ≡ over_core (send_result_response h peer req.id v) later)
  unfolding route_agent_response
  session_from_cache a n resp p kind es peer req numbered pending shakes opens fine method =
      let routed : route_agent_response h x resp a.mux ≡ answer_pending h x n resp p a.mux =
        rw (numbered, pending, route_agent_response) refl in
      let cached : is_some (route_agent_response h x resp a.mux).core.session_new_cache ≡ true =
        rw (routed, route_agent_response) (answered-Cached n resp p kind a.mux shakes opens fine) in
      let opened = record a { mux = route_agent_response h x resp a.mux } in
      let (v, e) = value_of _ ((run-Established opened es).1 cached) in
      (v, e, answer_session_new peer req v _ method e)
