-- ===== src/Mux/Proofs/TurnEnd.antt =====
-- The end of a turn: the response to the prompt in flight settles every request of the agent.
use acp_mux.Base.{
  ℕ, ◌≡◌, refl, ap, ◌∙◌, ◌≢◌, String, Bool, true, false, List, [], ◌∷◌, Option, none, some, is_some,
  ◌==◌, arith, inl, inr, if_case, pos, any, Bool-cases, eq_nat, eq_text, unwrap_or,
}
use acp_mux.Base.Map
use acp_mux.Json.{Value, str_param}
use acp_mux.Jsonrpc.{RequestId, number, eq_id, IncomingResponse}
use acp_mux.Host.{Host, Bytes, is_empty}
use acp_mux.Core.{
  MuxCore, in_flight, consumed, HandshakeKind, initialize, session_new, session_load,
  PendingRequest,
}
use acp_mux.Core.Send.{send_to}
use acp_mux.Extension.{Mux, MuxExtension, KeepsToCtx, over_core, turn_ended}
use acp_mux.Extension.Ctx.{CtxSteps}
use acp_mux.Extension.Untouched.{Books, CtxSteps-Untouched}
use acp_mux.Mux.Session.{
  consume, same_text, set_canonical_session_id, note_session, apply_successful_handshake, sweep,
  stale_ids, sweep_stale_agent_pending,
}
use acp_mux.Mux.Agent.{
  settle, complete_handshake, deliver, answer_pending, route_agent_response, is_prompt_id,
}
use acp_mux.Mux.Steps.OfParts.{AgentBook}
use acp_mux.Mux.Steps.{remove_pending, end_turn}
use acp_mux.Mux.Proofs.Requests.{route_present}

-- Answering these requests, one after the other.
consume_all : List RequestId → AgentBook → AgentBook
consume_all [] p = p
consume_all (i ∷ is) p = consume_all is (Map.insert i consumed p)

abbrev listed : RequestId → List RequestId → Bool
listed j = any (λ i. i == j)

-- No request of the agent waits for a reply.
abbrev pub NoneInFlight : AgentBook → Type 0
NoneInFlight p = (j : RequestId) → Map.get j p ≢ some in_flight

get-in_flight :
    (j : RequestId) (p : AgentBook) → Map.get j p ≡ some in_flight → listed j (stale_ids p) ≡ true
unfolding Map.get stale_ids
get-in_flight j [] e = cc
get-in_flight j ((i, in_flight) ∷ p) e = ground (arith, get-in_flight j p)
get-in_flight j ((i, consumed) ∷ p) e = ground (arith, get-in_flight j p)

consume_all-keeps :
    (j : RequestId) (is : List RequestId) (p : AgentBook)
    → Map.get j p ≡ some consumed
    → Map.get j (consume_all is p) ≡ some consumed
unfolding consume_all
consume_all-keeps j [] p e = e
consume_all-keeps j (i ∷ is) p e =
    consume_all-keeps j is (Map.insert i consumed p) (ground (arith, Map.get-insert i j consumed p))

consume_all-listed :
    (j : RequestId) (is : List RequestId) (p : AgentBook)
    → listed j is ≡ true
    → Map.get j (consume_all is p) ≡ some consumed
unfolding consume_all
consume_all-listed j [] p l = cc
consume_all-listed j (i ∷ is) p l = elim (Bool-cases (i == j)) [
  | inl e ↦
      consume_all-keeps j is (Map.insert i consumed p)
        (ground (arith, Map.get-insert i j consumed p))
  | inr e ↦ consume_all-listed j is (Map.insert i consumed p) (rw e at l)
]

consume_all-in_flight :
    (j : RequestId) (is : List RequestId) (p : AgentBook)
    → Map.get j (consume_all is p) ≡ some in_flight
    → Map.get j p ≡ some in_flight
unfolding consume_all
consume_all-in_flight j [] p e = e
consume_all-in_flight j (i ∷ is) p e =
    let before = consume_all-in_flight j is (Map.insert i consumed p) e in
    ground (arith, Map.get-insert i j consumed p)

swept-NoneInFlight : (p : AgentBook) → NoneInFlight (consume_all (stale_ids p) p)
swept-NoneInFlight p j e = cc (
  e,
  consume_all-listed j (stale_ids p) p
      (get-in_flight j p (consume_all-in_flight j (stale_ids p) p e)),
)

abbrev book : {E : Type 0} → Mux E → AgentBook
book m = m.core.agent_pending

module _ {h : Host} {E : Type 0} (x : MuxExtension E) (k : KeepsToCtx h x) where
  same_book : {c d : MuxCore} → CtxSteps h c d → d.agent_pending ≡ c.agent_pending
  same_book s = ap (λ (b : Books). b.agent_pending) (CtxSteps-Untouched s)

  book-sweep : (is : List RequestId) (m : Mux E) → book (sweep x is m) ≡ consume_all is (book m)
  unfolding sweep consume_all consume
  book-sweep [] m = refl
  book-sweep (i ∷ is) m =
      book-sweep is (x.on_agent_request_resolved (over_core (consume i) m) i turn_ended none)
      ∙ ap (consume_all is)
          (same_book (k.agent_request_resolved (over_core (consume i) m) i turn_ended none))

  book-canonical :
      (s : String) (via_load : Bool) (m : Mux E)
      → book (set_canonical_session_id x s via_load m) ≡ book m
  unfolding set_canonical_session_id
  book-canonical s via_load m =
      if_case (λ (r : Mux E). book r ≡ book m) (same_text m.core.canonical_session_id s)
        (if_case (λ (r : Mux E). book r ≡ book m) via_load
          (same_book (k.canonical_session_id m _ s via_load)) refl)
        (same_book (k.canonical_session_id _ _ s via_load))

  book-note : (s : Option String) (m : Mux E) → book (note_session x s m) ≡ book m
  book-note none m = refl
  book-note (some s) m = book-canonical s false m

  book-handshake :
      (kind : HandshakeKind) (result : Option Value) (m : Mux E)
      → book (apply_successful_handshake x kind result m) ≡ book m
  unfolding apply_successful_handshake
  book-handshake initialize result m = refl
  book-handshake session_new result m =
      book-note (str_param (some (unwrap_or result Value.null)) "sessionId") m
  book-handshake (session_load s) result m = book-canonical s true m

  book_complete :
      (r : IncomingResponse) (kind : Option HandshakeKind) (m : Mux E)
      → book (complete_handshake h x r kind m) ≡ book m
  unfolding complete_handshake
  book_complete r none m = refl
  book_complete r (some kind) m =
      if_case (λ (n : Mux E). book n ≡ book m) (is_some r.error) refl
        (book-handshake kind r.result m)

  book-deliver :
      (p : PendingRequest) (bytes : Bytes) (c : MuxCore)
      → (deliver h x p bytes c).agent_pending ≡ c.agent_pending
  unfolding deliver send_to
  book-deliver p bytes c =
      if_case (λ (d : MuxCore). d.agent_pending ≡ c.agent_pending) p.deliver_response
        (if_case (λ (d : MuxCore). d.agent_pending ≡ c.agent_pending) (is_empty bytes) refl refl)
        refl

  settle-NoneInFlight :
      (n : ℕ) (r : IncomingResponse) (m : Mux E)
      → m.core.prompt_in_flight ≡ some n
      → NoneInFlight (book (settle h x n r m))
  unfolding settle sweep_stale_agent_pending
  settle-NoneInFlight n r m prompt =
      let is_prompt : is_prompt_id m.core.prompt_in_flight n ≡ true = rw prompt (ground arith) in
      let ended = over_core end_turn m in
      let swept = sweep_stale_agent_pending x ended in
      let settled : book (settle h x n r m) ≡ consume_all (stale_ids (book m)) (book m) =
        rw (is_prompt, settle)
          (same_book (k.prompt_settled swept n r) ∙ book-sweep (stale_ids (book m)) ended) in
      rw settled (swept-NoneInFlight (book m))

  -- When the agent responds to the prompt in flight, none of its own requests waits for a reply any
  -- longer, whatever the extension does.
  pub turn_end_settles :
      (r : IncomingResponse) (n : ℕ) (p : PendingRequest) (m : Mux E)
      → r.id ≡ number (pos n)
      → Map.get n m.core.pending ≡ some p
      → m.core.prompt_in_flight ≡ some n
      → NoneInFlight (book (route_agent_response h x r m))
  unfolding answer_pending
  turn_end_settles r n p m same found prompt =
      let restored = record r { id = p.original_id } in
      let settled = settle h x n restored (over_core (remove_pending n) m) in
      let shaken = complete_handshake h x restored p.handshake settled in
      let last : book (answer_pending h x n r p m) ≡ book settled =
        book-deliver p _ (x.on_agent_response shaken n restored).0.core
        ∙ same_book (k.agent_response shaken n restored)
        ∙ book_complete restored p.handshake settled in
      rw (route_present x k r n p m same found)
        (rw last (settle-NoneInFlight n restored (over_core (remove_pending n) m) prompt))
