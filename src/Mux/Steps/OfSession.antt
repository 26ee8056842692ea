-- ===== src/Mux/Steps/OfSession.antt =====
-- Which steps of the core change the two caches, the canonical session id and the policy.
use acp_mux.Base.{sym, ap, subst, String, Option, some, is_some, ◌==◌, eq_text, if_case}
use acp_mux.Base.Map
use acp_mux.Json.{Value}
use acp_mux.Jsonrpc.{RequestId, eq_id}
use acp_mux.Host.{Bytes, Host}
use acp_mux.Policy.{ClientToolPolicy}
use acp_mux.Core.{MuxCore}
use acp_mux.Core.Send.{close_all_subscribers, fanout}
use acp_mux.Extension.Untouched.{Books, CtxStep-Untouched, CtxSteps-Untouched}
use acp_mux.Mux.Session.{consume}
use acp_mux.Mux.Inbound.{enter_request}
use acp_mux.Mux.Agent.{open_request, note_permission, is_prompt_id}
use acp_mux.Mux.Steps.{
  CoreStep, extends, joins, leaves, pushes, consumes, asks, fans, switches, caches_initialize,
  caches_session, numbers, forwards, shuts, drains, closes,
}

-- The handshake's outcome: the cached results, the canonical id, and the policy.
pub record Handshake : Type 0 where
  pub initialize_cache : Option Value
  pub session_new_cache : Option Value
  pub canonical_session_id : Option String
  pub client_tool_policy : ClientToolPolicy

abbrev pub handshake_of : MuxCore → Handshake
handshake_of c = record {
  initialize_cache = c.initialize_cache;
  session_new_cache = c.session_new_cache;
  canonical_session_id = c.canonical_session_id;
  client_tool_policy = c.client_tool_policy;
}

of_books : Books → Handshake
of_books b = record {
  initialize_cache = b.initialize_cache;
  session_new_cache = b.session_new_cache;
  canonical_session_id = b.canonical_session_id;
  client_tool_policy = b.client_tool_policy;
}

module _ {ℓ} (Q : Handshake → Type ℓ)
    (initialized : (s : Handshake) (v : Value) → Q s → Q (record s { initialize_cache = some v }))
    (opened : (s : Handshake) (v : Value) → Q s → Q (record s { session_new_cache = some v }))
    (switched : (s : Handshake) (i : String)
      → Q s
      → Q (record s { canonical_session_id = some i })) where
  asks-keeps :
      (method : String) (id : RequestId) (line : Bytes) (c : MuxCore)
      → Q (handshake_of c)
      → Q (handshake_of (note_permission method id line (open_request id c)))
  unfolding note_permission open_request
  asks-keeps method id line c q =
      let before : Q (handshake_of (open_request id c)) =
        if_case (λ (d : MuxCore). Q (handshake_of d)) (is_some (Map.get id c.agent_pending)) q q in
      if_case (λ (d : MuxCore). Q (handshake_of d)) (method == "session/request_permission") before
        before

  -- Only successful handshakes and a switched session change them.
  pub keep_session :
      {h : Host} (c d : MuxCore) → CoreStep h c d → Q (handshake_of c) → Q (handshake_of d)
  unfolding fanout close_all_subscribers enter_request consume of_books
  keep_session c d (extends s) q = subst Q (sym (ap of_books (CtxStep-Untouched s))) q
  keep_session c d (joins s e) q = rw e q
  keep_session c d (leaves p e) q = rw e q
  keep_session c d (pushes b e) q = rw e q
  keep_session c d (consumes j e) q = rw e q
  keep_session c d (asks method j line e) q = rw e (asks-keeps method j line c q)
  keep_session c d (fans l e) q = rw e q
  keep_session c d (switches s e) q = rw e (switched (handshake_of c) s q)
  keep_session c d (caches_initialize v e) q = rw e (initialized (handshake_of c) v q)
  keep_session c d (caches_session v e) q = rw e (opened (handshake_of c) v q)
  keep_session c d (numbers e) q = rw e q
  keep_session c d (forwards {b} entry p bytes steps e) q =
      rw e (subst Q (sym (ap of_books (CtxSteps-Untouched steps))) q)
  keep_session c d (shuts code reason e) q = rw e q
  keep_session c d (drains e) q = rw e q
  keep_session c d (closes k e) q =
      rw e (if_case (λ (f : MuxCore). Q (handshake_of f)) (is_prompt_id c.prompt_in_flight k) q q)
