-- ===== src/Mux/Proofs/AgentRequests.antt =====
-- Requests of the agent: the first reply wins, and a request that was answered stays answered.
use acp_mux.Base.{
  ◌≡◌, refl, ap, ◌∙◌, String, false, List, [], ◌∷◌, ◌++◌, Option, some, is_some, arith,
}
use acp_mux.Base.Map
use acp_mux.Jsonrpc.{RequestId, eq_id, IncomingRequest, IncomingResponse, response, ok}
use acp_mux.Host.{Host, Bytes, parse}
use acp_mux.Policy.{ClientToolPolicy, mode_for_method}
use acp_mux.Core.{MuxCore, AgentReqState, in_flight, consumed}
use acp_mux.Core.Send.{fanout}
use acp_mux.Extension.{Mux, MuxExtension, KeepsToCtx, over_core, peer}
use acp_mux.Extension.Untouched.{Books, CtxSteps-Untouched}
use acp_mux.Mux.Session.{consume}
use acp_mux.Mux.Inbound.{handle_inbound, gate_subscriber_response, push_outbox}
use acp_mux.Mux.Agent.{open_request, note_permission, is_blocked, handle_agent_request}
use acp_mux.Mux.Run.{Actor, Event, run}
use acp_mux.Mux.Steps.{CoreStep}
use acp_mux.Mux.Steps.OfRun.{keep_run}
use acp_mux.Mux.Steps.OfParts.{AgentBook, keep_agent_book}

-- The state of a request of the agent.
abbrev pub state_of : RequestId → MuxCore → Option AgentReqState
state_of id c = Map.get id c.agent_pending

abbrev pub IsAnswered : RequestId → MuxCore → Type 0
IsAnswered id c = state_of id c ≡ some consumed

state_of-consume : (id : RequestId) (c : MuxCore) → IsAnswered id (consume id c)
unfolding consume
state_of-consume id c =
    ground (arith, Map.get-insert id id consumed c.agent_pending, eq_id.alike_iff id id)

same_state :
    (id : RequestId) {p q : AgentBook}
    → q ≡ p
    → Map.get id p ≡ some consumed
    → Map.get id q ≡ some consumed
same_state id e a = ap (λ b. Map.get id b) e ∙ a

get-answer :
    (id j : RequestId) (p : AgentBook)
    → Map.get id p ≡ some consumed
    → Map.get id (Map.insert j consumed p) ≡ some consumed
get-answer id j p a = ground (arith, Map.get-insert j id consumed p)

get-open :
    (id j : RequestId) (p : AgentBook)
    → is_some (Map.get j p) ≡ false
    → Map.get id p ≡ some consumed
    → Map.get id (Map.insert j in_flight p) ≡ some consumed
get-open id j p fresh a = ground (arith, Map.get-insert j id in_flight p, eq_id.alike_iff j id)

-- No step of the core brings an answered request back.
step-IsAnswered :
    {h : Host} (id : RequestId) (c d : MuxCore) → CoreStep h c d → IsAnswered id c → IsAnswered id d
step-IsAnswered id =
    keep_agent_book (λ p. Map.get id p ≡ some consumed) (get-answer id) (get-open id)

-- Late replies change nothing.
late_reply :
    (h : Host) {E : Type 0} (x : MuxExtension E) (p : String) (r : IncomingResponse) (bytes : Bytes)
    (m : Mux E)
    → parse h bytes ≡ ok (response r)
    → IsAnswered r.id m.core
    → handle_inbound h x p bytes m ≡ m
unfolding handle_inbound gate_subscriber_response
late_reply h x p r bytes m parsed a = rw (parsed, handle_inbound) (rw (a, gate_subscriber_response))

-- The state after the extension was told of the first reply.
abbrev pub told : {E : Type 0} → MuxExtension E → String → IncomingResponse → Mux E → Mux E
told x p r m = x.on_agent_request_resolved (over_core (consume r.id) m) r.id (peer p) (some r)

first_reply :
    (h : Host) {E : Type 0} (x : MuxExtension E) (p : String) (r : IncomingResponse) (bytes : Bytes)
    (m : Mux E)
    → parse h bytes ≡ ok (response r)
    → state_of r.id m.core ≡ some in_flight
    → handle_inbound h x p bytes m ≡ over_core (push_outbox bytes) (told x p r m)
unfolding handle_inbound gate_subscriber_response
first_reply h x p r bytes m parsed a =
    rw (parsed, handle_inbound) (rw (a, gate_subscriber_response))

-- A permission request is no client-tool request.
not_blocked :
    (p : ClientToolPolicy) → is_blocked (mode_for_method p "session/request_permission") ≡ false
unfolding mode_for_method
not_blocked p = refl

note_again :
    (method : String) (id : RequestId) (line : Bytes) (c : MuxCore)
    → method ≡ "session/request_permission"
    → IsAnswered id c
    → let d = note_permission method id line (open_request id c) in
      (d.pending_permissions ≡ c.pending_permissions ++ (id, line) ∷ [])
      × (d.agent_pending ≡ c.agent_pending)
unfolding note_permission open_request
note_again method id line c e a = rw (e, note_permission) (rw (a, open_request) (refl, refl))

module _ {h : Host} {E : Type 0} (x : MuxExtension E) (k : KeepsToCtx h x) where
  told-IsAnswered :
      (p : String) (r : IncomingResponse) (m : Mux E) → IsAnswered r.id (told x p r m).core
  told-IsAnswered p r m =
      same_state r.id
        (ap (λ (b : Books). b.agent_pending)
          (CtxSteps-Untouched
            (k.agent_request_resolved (over_core (consume r.id) m) r.id (peer p) (some r))))
        (state_of-consume r.id m.core)

  -- The first reply to a request in flight, by whichever peer, goes to the agent as it came, after
  -- the extension was told. After any further events a reply to that request, by the same peer or
  -- another, changes nothing.
  pub first_writer_wins :
      (p : String) (r : IncomingResponse) (bytes : Bytes) (a : Actor E) (es : List Event)
      (q : String) (r' : IncomingResponse) (bytes' : Bytes)
      → parse h bytes ≡ ok (response r)
      → state_of r.id a.mux.core ≡ some in_flight
      → parse h bytes' ≡ ok (response r')
      → r'.id ≡ r.id
      → let m' = handle_inbound h x p bytes a.mux in
        let later = (run h x (record a { mux = m' }) es).mux in
        (m' ≡ over_core (push_outbox bytes) (told x p r a.mux))
        × (handle_inbound h x q bytes' later ≡ later)
  first_writer_wins p r bytes a es q r' bytes' parsed pending parsed' same =
      let first = first_reply h x p r bytes a.mux parsed pending in
      let answered : IsAnswered r.id (handle_inbound h x p bytes a.mux).core =
        rw first (told-IsAnswered p r a.mux) in
      (
        first,
        late_reply h x q r' bytes' _ parsed' (
            rw same (
              keep_run x k (IsAnswered r.id) (step-IsAnswered r.id)
                (record a { mux = handle_inbound h x p bytes a.mux }) es answered)),
      )

  kept_permissions :
      (req : IncomingRequest) (line : Bytes) (m : Mux E)
      → req.method ≡ "session/request_permission"
      → IsAnswered req.id m.core
      → let m' = handle_agent_request h x req line m in
        (m'.core.pending_permissions ≡ m.core.pending_permissions ++ (req.id, line) ∷ [])
        × IsAnswered req.id m'.core
  unfolding handle_agent_request fanout
  kept_permissions req line m method a =
      let entered =
        over_core (λ c. note_permission req.method req.id line (open_request req.id c)) m in
      let passed : is_blocked (mode_for_method m.core.client_tool_policy req.method) ≡ false =
        rw method (not_blocked m.core.client_tool_policy) in
      let after = CtxSteps-Untouched (k.agent_request entered req.id req) in
      let noted = note_again req.method req.id line m.core method a in
      rw (passed, handle_agent_request)
        (
          ap (λ (b : Books). b.pending_permissions) after ∙ noted.0,
          same_state req.id (ap (λ (b : Books). b.agent_pending) after ∙ noted.1) a,
        )

  -- A permission request under the id of an answered request is listed as pending, and no reply to
  -- it, by any peer and after any further events, has an effect.
  pub reused_id_unanswerable :
      (req : IncomingRequest) (line : Bytes) (a : Actor E) (es : List Event) (q : String)
      (r : IncomingResponse) (bytes : Bytes)
      → req.method ≡ "session/request_permission"
      → IsAnswered req.id a.mux.core
      → parse h bytes ≡ ok (response r)
      → r.id ≡ req.id
      → let m' = handle_agent_request h x req line a.mux in
        let later = (run h x (record a { mux = m' }) es).mux in
        (m'.core.pending_permissions ≡ a.mux.core.pending_permissions ++ (req.id, line) ∷ [])
        × (handle_inbound h x q bytes later ≡ later)
  reused_id_unanswerable req line a es q r bytes method answered parsed same =
      let m' = handle_agent_request h x req line a.mux in
      let kept = kept_permissions req line a.mux method answered in
      (
        kept.0,
        late_reply h x q r bytes _ parsed (
            rw same (
              keep_run x k (IsAnswered req.id) (step-IsAnswered req.id) (record a { mux = m' }) es
                kept.1)),
      )
