-- ===== src/Mux/Steps/OfParts.antt =====
-- Which steps of the core change which part of it: one rule for each part, from what the changes of
-- that part keep to what every step keeps.
use acp_mux.Base.{
  ◌≡◌, sym, ap, subst, String, false, List, is_some, ◌==◌, eq_text, eq_nat, inl, inr, Bool-cases,
  if_case,
}
use acp_mux.Base.Map
use acp_mux.Jsonrpc.{RequestId, eq_id}
use acp_mux.Host.{Host, Bytes}
use acp_mux.Core.{MuxCore, AgentReqState, in_flight, consumed}
use acp_mux.Core.Send.{close_all_subscribers, fanout}
use acp_mux.Extension.Untouched.{Books, CtxStep-Untouched, CtxSteps-Untouched}
use acp_mux.Mux.Session.{consume}
use acp_mux.Mux.Inbound.{enter_request}
use acp_mux.Mux.Agent.{open_request, note_permission, is_prompt_id}
use acp_mux.Mux.Steps.{
  CoreStep, extends, joins, leaves, pushes, consumes, asks, fans, switches, caches_initialize,
  caches_session, numbers, forwards, shuts, drains, closes,
}

abbrev pub AgentBook : Type 0
AgentBook = List (RequestId × AgentReqState)

module _ {ℓ} (Q : AgentBook → Type ℓ)
    (answer : (id : RequestId) (p : AgentBook) → Q p → Q (Map.insert id consumed p))
    (open_ : (id : RequestId) (p : AgentBook)
      → is_some (Map.get id p) ≡ false
      → Q p
      → Q (Map.insert id in_flight p)) where
  open_request-keeps :
      (id : RequestId) (c : MuxCore) → Q c.agent_pending → Q (open_request id c).agent_pending
  unfolding open_request
  open_request-keeps id c q = elim (Bool-cases (is_some (Map.get id c.agent_pending))) [
    | inl known ↦ rw (known, open_request) q
    | inr fresh ↦ rw (fresh, open_request) (open_ id c.agent_pending fresh q)
  ]

  note-keeps :
      (method : String) (id : RequestId) (line : Bytes) (c : MuxCore)
      → Q c.agent_pending
      → Q (note_permission method id line c).agent_pending
  unfolding note_permission
  note-keeps method id line c q =
      if_case (λ (d : MuxCore). Q d.agent_pending) (method == "session/request_permission") q q

  -- Only a new request of the agent and an answer change its book.
  pub keep_agent_book :
      {h : Host} (c d : MuxCore) → CoreStep h c d → Q c.agent_pending → Q d.agent_pending
  unfolding fanout close_all_subscribers enter_request consume
  keep_agent_book c d (extends s) q =
      subst Q (sym (ap (λ (b : Books). b.agent_pending) (CtxStep-Untouched s))) q
  keep_agent_book c d (joins s e) q = rw e q
  keep_agent_book c d (leaves p e) q = rw e q
  keep_agent_book c d (pushes b e) q = rw e q
  keep_agent_book c d (consumes j e) q = rw e (answer j c.agent_pending q)
  keep_agent_book c d (asks method j line e) q =
      rw e (note-keeps method j line (open_request j c) (open_request-keeps j c q))
  keep_agent_book c d (fans l e) q = rw e q
  keep_agent_book c d (switches s e) q = rw e q
  keep_agent_book c d (caches_initialize v e) q = rw e q
  keep_agent_book c d (caches_session v e) q = rw e q
  keep_agent_book c d (numbers e) q = rw e q
  keep_agent_book c d (forwards {b} entry p bytes steps e) q =
      rw e (subst Q (sym (ap (λ (k : Books). k.agent_pending) (CtxSteps-Untouched steps))) q)
  keep_agent_book c d (shuts code reason e) q = rw e q
  keep_agent_book c d (drains e) q = rw e q
  keep_agent_book c d (closes k e) q =
      rw e (if_case (λ (d : MuxCore). Q d.agent_pending) (is_prompt_id c.prompt_in_flight k) q q)
