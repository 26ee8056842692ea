-- ===== src/Mux/State/OfAgent.antt =====
-- The handlers of the agent's lines keep a property of the state.
use acp_mux.Base.{
  if_case, ℕ, ◌≡◌, refl, String, Bool, true, false, List, [], ◌∷◌, Option, none, some, is_some,
  ◌==◌, eq_text, eq_nat, inl, inr, Option-cases, unwrap_or, ◌∙◌,
}
use acp_mux.Base.Map
use acp_mux.Json.{Value, str_param}
use acp_mux.Jsonrpc.{
  RequestId, IncomingResponse, IncomingRequest, IncomingNotification, Incoming, ok, err, request,
  notification, response, eq_id,
}
use acp_mux.Host.{Host, Bytes, parse, is_empty}
use acp_mux.Policy.{mode_for_method}
use acp_mux.Core.{
  MuxCore, PendingRequest, HandshakeKind, initialize, session_new, session_load, in_flight,
  consumed,
}
use acp_mux.Core.Send.{broadcast, fanout, send_to}
use acp_mux.Extension.{Mux, MuxExtension, over_core, turn_ended, agent_cancelled}
use acp_mux.Mux.Session.{
  consume, same_text, set_canonical_session_id, note_session, apply_successful_handshake, sweep,
  stale_ids, sweep_stale_agent_pending,
}
use acp_mux.Mux.Inbound.{parse_cancel_request_id}
use acp_mux.Mux.Agent.{
  is_blocked, consume_in_flight, switched_session, mux_id_of, is_prompt_id, handle_agent_cancel,
  follow_session, handle_agent_notification, handle_agent_request, settle, complete_handshake,
  deliver, answer_pending, route_agent_response, dispatch_agent, handle_agent_line, open_request,
  note_permission,
}
use acp_mux.Mux.State.{KeepsState, broadcast_flight}

consume_in_flight_flight :
    (id : RequestId) (c : MuxCore) → (consume_in_flight id c).prompt_in_flight ≡ c.prompt_in_flight
unfolding consume_in_flight consume
consume_in_flight_flight id c =
    elim (Map.get id c.agent_pending)
      as (λ o.
        (elim o as (λ _. MuxCore) [
          | some in_flight ↦ consume id c
          | some consumed ↦ c
          | none ↦ c
        ]).prompt_in_flight
        ≡ c.prompt_in_flight) [ some in_flight ↦ refl | some consumed ↦ refl | none ↦ refl ]

asked_flight :
    (method : String) (id : RequestId) (line : Bytes) (c : MuxCore)
    → (note_permission method id line (open_request id c)).prompt_in_flight ≡ c.prompt_in_flight
unfolding note_permission open_request
asked_flight method id line c =
    if_case (λ (d : MuxCore). d.prompt_in_flight ≡ c.prompt_in_flight)
      (method == "session/request_permission")
      (if_case (λ (d : MuxCore). d.prompt_in_flight ≡ c.prompt_in_flight)
        (is_some (Map.get id c.agent_pending)) refl refl)
      (if_case (λ (d : MuxCore). d.prompt_in_flight ≡ c.prompt_in_flight)
        (is_some (Map.get id c.agent_pending)) refl refl)

deliver_flight :
    (h : Host) {E : Type 0} (x : MuxExtension E) (p : PendingRequest) (bytes : Bytes) (c : MuxCore)
    → (deliver h x p bytes c).prompt_in_flight ≡ c.prompt_in_flight
unfolding deliver send_to
deliver_flight h x p bytes c =
    if_case (λ (d : MuxCore). d.prompt_in_flight ≡ c.prompt_in_flight) p.deliver_response
      (if_case (λ (d : MuxCore). d.prompt_in_flight ≡ c.prompt_in_flight) (is_empty bytes) refl
        refl)
      refl

module _ (h : Host) {E : Type 0} (x : MuxExtension E) {W P : Mux E → Type 0}
    (k : KeepsState x W P) where
  canonical_keeps :
      (s : String) (via_load : Bool) (m : Mux E) → P m → P (set_canonical_session_id x s via_load m)
  unfolding set_canonical_session_id
  canonical_keeps s via_load m p =
      if_case P (same_text m.core.canonical_session_id s)
        (if_case P via_load (k.canonical_session_id m _ s via_load p) p)
        (k.canonical_session_id _ _ s via_load (k.aside m _ refl p))

  note_session_keeps : (s : Option String) (m : Mux E) → P m → P (note_session x s m)
  note_session_keeps none m p = p
  note_session_keeps (some s) m p = canonical_keeps s false m p

  follow_keeps : (s : Option String) (m : Mux E) → P m → P (follow_session h x s m)
  follow_keeps none m p = p
  follow_keeps (some s) m p = canonical_keeps s false m p

  handshake_keeps :
      (kind : HandshakeKind) (result : Option Value) (m : Mux E)
      → P m
      → P (apply_successful_handshake x kind result m)
  unfolding apply_successful_handshake
  handshake_keeps initialize result m p = k.aside m _ refl p
  handshake_keeps session_new result m p =
      k.aside _ _ refl
        (note_session_keeps (str_param (some (unwrap_or result Value.null)) "sessionId") m p)
  handshake_keeps (session_load loaded) result m p =
      k.aside _ _ refl (canonical_keeps loaded true m p)

  complete_keeps :
      (r : IncomingResponse) (kind : Option HandshakeKind) (m : Mux E)
      → P m
      → P (complete_handshake h x r kind m)
  unfolding complete_handshake
  complete_keeps r none m p = p
  complete_keeps r (some kind) m p =
      if_case P (is_some r.error) p (handshake_keeps kind r.result m p)

  -- The gap: the answers that the turn still waited for are settled.
  sweep_drifts : (ids : List RequestId) (m : Mux E) → W m → W (sweep x ids m)
  unfolding sweep
  sweep_drifts [] m w = w
  sweep_drifts (id ∷ ids) m w =
      sweep_drifts ids _
        (k.lapsed_resolved (over_core (consume id) m) id turn_ended none (k.drifts m _ w))

  settle_keeps : (n : ℕ) (r : IncomingResponse) (m : Mux E) → P m → P (settle h x n r m)
  unfolding settle sweep_stale_agent_pending
  settle_keeps n r m p =
      let ended = over_core (λ c. record c { prompt_in_flight = none }) m in
      if_case P (is_prompt_id m.core.prompt_in_flight n)
        (k.settled _ n r (sweep_drifts (stale_ids m.core.agent_pending) ended (k.lapses m _ p))) p

  delivered :
      (q : PendingRequest) (bytes : Bytes) (m : Mux E) → P m → P (over_core (deliver h x q bytes) m)
  delivered q bytes m p = k.aside m _ (deliver_flight h x q bytes m.core) p

  answer_keeps :
      (n : ℕ) (r : IncomingResponse) (q : PendingRequest) (m : Mux E)
      → P m
      → P (answer_pending h x n r q m)
  unfolding answer_pending
  answer_keeps n r q m p =
      let restored = record r { id = q.original_id } in
      let removed = over_core (λ c. record c { pending = Map.remove n c.pending }) m in
      let shaken = complete_handshake h x restored q.handshake (settle h x n restored removed) in
      delivered q _ _ (
        k.agent_response shaken n restored (
          complete_keeps restored q.handshake _
            (settle_keeps n restored removed (k.aside m _ refl p))))

  route_keeps : (r : IncomingResponse) (m : Mux E) → P m → P (route_agent_response h x r m)
  unfolding route_agent_response
  route_keeps r m p = elim (Option-cases (mux_id_of r.id)) [
    | inl e ↦ rw (e, route_agent_response) p
    | inr (n, e) ↦
        rw (e, route_agent_response)
          (elim (Option-cases (Map.get n m.core.pending)) [
            | inl absent ↦ rw absent p
            | inr (q, found) ↦ rw found (answer_keeps n r q m p)
          ])
  ]

  cancel_keeps :
      (n : IncomingNotification) (line : Bytes) (m : Mux E)
      → P m
      → P (handle_agent_cancel h x n line m)
  unfolding handle_agent_cancel
  cancel_keeps n line m p = elim (Option-cases (parse_cancel_request_id n.params)) [
    | inl e ↦ rw (e, handle_agent_cancel) p
    | inr (id, e) ↦
        rw (e, handle_agent_cancel)
          (k.agent_request_resolved _ id agent_cancelled none
            (k.aside m _ (broadcast_flight h line _ ∙ consume_in_flight_flight id m.core) p))
  ]

  notification_keeps :
      (n : IncomingNotification) (line : Bytes) (m : Mux E)
      → P m
      → P (handle_agent_notification h x n line m)
  unfolding handle_agent_notification
  notification_keeps n line m p =
      let s = switched_session (str_param n.params "sessionId") m.core.canonical_session_id in
      if_case P (n.method == "$/cancel_request") (cancel_keeps n line m p) (
        k.aside _ _ (broadcast_flight h line _)
          (k.agent_notification (follow_session h x s m) n (follow_keeps s m p)))

  request_keeps :
      (r : IncomingRequest) (line : Bytes) (m : Mux E) → P m → P (handle_agent_request h x r line m)
  unfolding handle_agent_request fanout
  request_keeps r line m p =
      if_case P (is_blocked (mode_for_method m.core.client_tool_policy r.method))
        (k.aside m _ refl p)
        (k.aside _ _ refl
          (k.agent_request _ r.id r (k.aside m _ (asked_flight r.method r.id line m.core) p)))

  dispatch_keeps : (f : Incoming) (line : Bytes) (m : Mux E) → P m → P (dispatch_agent h x f line m)
  unfolding dispatch_agent
  dispatch_keeps (notification n) line m p = notification_keeps n line m p
  dispatch_keeps (request r) line m p = request_keeps r line m p
  dispatch_keeps (response r) line m p = route_keeps r m p

  pub agent_line_keeps : (line : Bytes) (m : Mux E) → P m → P (handle_agent_line h x line m)
  unfolding handle_agent_line
  agent_line_keeps line m p =
      elim (parse h line)
        as (λ r. P (elim r as (λ _. Mux E) [
          | err e ↦ over_core (broadcast h line) m
          | ok f ↦ dispatch_agent h x f line m
        ])) [
          | err e ↦ k.aside m _ (broadcast_flight h line m.core) p
          | ok f ↦ dispatch_keeps f line m p
        ]
