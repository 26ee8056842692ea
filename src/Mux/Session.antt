-- ===== src/Mux/Session.antt =====
-- crates/acp-mux/src/mux/actor.rs: the canonical session id, the handshake caches, and the sweep of
-- agent requests when a turn ends.
use acp_mux.Base.{
  String, Bool, true, false, List, [], ◌∷◌, Option, none, some, if◌then◌else◌, eq_text, unwrap_or,
  retain, not, ◌==◌, map_some,
}
use acp_mux.Base.Map
use acp_mux.Json.{Value, obj, str, field, end, str_param}
use acp_mux.Jsonrpc.{RequestId, eq_id, id_eq, IncomingRequest}
use acp_mux.Core.{
  HandshakeKind, initialize, session_new, session_load, AgentReqState, in_flight, consumed, MuxCore,
}
use acp_mux.Extension.{Mux, MuxExtension, turn_ended, over_core}

abbrev pub same_text : Option String → String → Bool
same_text none s = false
same_text (some t) s = t == s

-- The request is answered: it is no longer in flight, and its permission no longer pending.
unfoldable pub consume : RequestId → MuxCore → MuxCore
consume id c = record c {
  agent_pending = Map.insert id consumed c.agent_pending;
  pending_permissions = retain (λ p. not (id_eq p.0 id)) c.pending_permissions;
}

unfoldable pub stale_ids : List (RequestId × AgentReqState) → List RequestId
stale_ids [] = []
stale_ids ((id, in_flight) ∷ rest) = id ∷ stale_ids rest
stale_ids ((id, consumed) ∷ rest) = stale_ids rest

-- `handshake_kind`.
unfoldable pub handshake_kind : IncomingRequest → Option HandshakeKind
handshake_kind req =
    if req.method == "initialize"
    then some initialize
    else if req.method == "session/new"
    then some session_new
    else if req.method == "session/load"
    then map_some session_load (str_param req.params "sessionId")
    else none

module _ {E : Type 0} (x : MuxExtension E) where
  unfoldable pub set_canonical_session_id : String → Bool → Mux E → Mux E
  set_canonical_session_id session_id via_load m =
      let old = m.core.canonical_session_id in
      if same_text old session_id
      then (if via_load then x.on_canonical_session_id m old session_id via_load else m)
      else x.on_canonical_session_id
          (over_core (λ c. record c { canonical_session_id = some session_id }) m) old session_id
          via_load

  abbrev cache_session : Value → Mux E → Mux E
  cache_session result = over_core (λ c. record c { session_new_cache = some result })

  abbrev pub note_session : Option String → Mux E → Mux E
  note_session none m = m
  note_session (some session_id) m = set_canonical_session_id session_id false m

  unfoldable pub apply_successful_handshake : HandshakeKind → Option Value → Mux E → Mux E
  apply_successful_handshake initialize result m =
      over_core (λ c. record c { initialize_cache = some (unwrap_or result Value.null) }) m
  apply_successful_handshake session_new result m =
      cache_session (unwrap_or result Value.null)
        (note_session (str_param (some (unwrap_or result Value.null)) "sessionId") m)
  apply_successful_handshake (session_load loaded) result m =
      cache_session (unwrap_or result (obj (field "sessionId" (str loaded) end)))
        (set_canonical_session_id loaded true m)

  unfoldable pub sweep : List RequestId → Mux E → Mux E
  sweep [] m = m
  sweep (id ∷ ids) m =
      sweep ids (x.on_agent_request_resolved (over_core (consume id) m) id turn_ended none)

  unfoldable pub sweep_stale_agent_pending : Mux E → Mux E
  sweep_stale_agent_pending m = sweep (stale_ids m.core.agent_pending) m
