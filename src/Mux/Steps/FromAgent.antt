-- ===== src/Mux/Steps/FromAgent.antt =====
-- The handlers of the agent's lines as steps of the core.
use acp_mux.Base.{
  if_case, ℕ, refl, String, Bool, true, false, List, [], ◌∷◌, Option, none, some, is_some, ◌==◌,
  eq_text, eq_nat, inl, inr, Option-cases, Bool-cases, unwrap_or,
}
use acp_mux.Base.Map
use acp_mux.Json.{Value, str_param}
use acp_mux.Jsonrpc.{
  RequestId, IncomingResponse, IncomingRequest, IncomingNotification, Incoming, ok, err, request,
  notification, response, eq_id,
}
use acp_mux.Host.{Host, Bytes, parse, is_empty}
use acp_mux.Policy.{mode_for_method}
use acp_mux.Core.{
  MuxCore, PendingRequest, HandshakeKind, initialize, session_new, session_load, in_flight,
  consumed,
}
use acp_mux.Core.Send.{broadcast}
use acp_mux.Extension.{Mux, MuxExtension, KeepsToCtx, over_core, turn_ended, agent_cancelled}
use acp_mux.Mux.Session.{
  consume, same_text, set_canonical_session_id, note_session, apply_successful_handshake, sweep,
  stale_ids, sweep_stale_agent_pending,
}
use acp_mux.Mux.Inbound.{parse_cancel_request_id}
use acp_mux.Mux.Agent.{
  is_blocked, consume_in_flight, switched_session, mux_id_of, is_prompt_id, handle_agent_cancel,
  follow_session, handle_agent_notification, handle_agent_request, settle, complete_handshake,
  deliver, answer_pending, route_agent_response, dispatch_agent, handle_agent_line,
}
use acp_mux.Mux.Steps.{
  CoreSteps, here, trans, one, of_ctx, by_send, by_broadcast, pushes, consumes, asks, fans,
  switches, caches_initialize, caches_session, closes, close_request, remove_pending, end_turn,
}

module _ {h : Host} {E : Type 0} (x : MuxExtension E) (k : KeepsToCtx h x) where
  canonical-CoreSteps :
      (s : String) (via_load : Bool) (m : Mux E)
      → CoreSteps h m.core (set_canonical_session_id x s via_load m).core
  unfolding set_canonical_session_id
  canonical-CoreSteps s via_load m =
      let P = λ (r : Mux E). CoreSteps h m.core r.core in
      if_case P (same_text m.core.canonical_session_id s)
        (if_case P via_load (of_ctx (k.canonical_session_id m _ s via_load)) here)
        (trans (one (switches s refl)) (of_ctx (k.canonical_session_id _ _ s via_load)))

  note_session-CoreSteps :
      (s : Option String) (m : Mux E) → CoreSteps h m.core (note_session x s m).core
  note_session-CoreSteps none m = here
  note_session-CoreSteps (some s) m = canonical-CoreSteps s false m

  handshake-CoreSteps :
      (kind : HandshakeKind) (result : Option Value) (m : Mux E)
      → CoreSteps h m.core (apply_successful_handshake x kind result m).core
  unfolding apply_successful_handshake
  handshake-CoreSteps initialize result m = one (caches_initialize _ refl)
  handshake-CoreSteps session_new result m =
      trans (note_session-CoreSteps (str_param (some (unwrap_or result Value.null)) "sessionId") m)
        (one (caches_session _ refl))
  handshake-CoreSteps (session_load loaded) result m =
      trans (canonical-CoreSteps loaded true m) (one (caches_session _ refl))

  sweep-CoreSteps : (ids : List RequestId) (m : Mux E) → CoreSteps h m.core (sweep x ids m).core
  unfolding sweep
  sweep-CoreSteps [] m = here
  sweep-CoreSteps (id ∷ ids) m =
      let swept = x.on_agent_request_resolved (over_core (consume id) m) id turn_ended none in
      trans (one (consumes id refl)) (
        trans (of_ctx (k.agent_request_resolved (over_core (consume id) m) id turn_ended none))
          (sweep-CoreSteps ids swept))

  consume_in_flight-CoreSteps :
      (id : RequestId) (c : MuxCore) → CoreSteps h c (consume_in_flight id c)
  unfolding consume_in_flight
  consume_in_flight-CoreSteps id c =
      elim (Map.get id c.agent_pending)
        as (λ o. CoreSteps h c (elim o as (λ _. MuxCore) [
          | some in_flight ↦ consume id c
          | some consumed ↦ c
          | none ↦ c
        ])) [ some in_flight ↦ one (consumes id refl) | some consumed ↦ here | none ↦ here ]

  cancel-CoreSteps :
      (n : IncomingNotification) (line : Bytes) (m : Mux E)
      → CoreSteps h m.core (handle_agent_cancel h x n line m).core
  unfolding handle_agent_cancel
  cancel-CoreSteps n line m = elim (Option-cases (parse_cancel_request_id n.params)) [
    | inl e ↦ rw (e, handle_agent_cancel) here
    | inr (id, e) ↦
        rw (e, handle_agent_cancel)
          (trans (consume_in_flight-CoreSteps id m.core) (
            trans (by_broadcast line (consume_in_flight id m.core))
              (of_ctx (k.agent_request_resolved _ id agent_cancelled none))))
  ]

  follow-CoreSteps :
      (s : Option String) (m : Mux E) → CoreSteps h m.core (follow_session h x s m).core
  follow-CoreSteps none m = here
  follow-CoreSteps (some s) m = canonical-CoreSteps s false m

  notification-CoreSteps :
      (n : IncomingNotification) (line : Bytes) (m : Mux E)
      → CoreSteps h m.core (handle_agent_notification h x n line m).core
  unfolding handle_agent_notification
  notification-CoreSteps n line m =
      let s = switched_session (str_param n.params "sessionId") m.core.canonical_session_id in
      if_case (λ (r : Mux E). CoreSteps h m.core r.core) (n.method == "$/cancel_request")
        (cancel-CoreSteps n line m)
        (trans (follow-CoreSteps s m)
          (trans (of_ctx (k.agent_notification (follow_session h x s m) n)) (by_broadcast line _)))

  request-CoreSteps :
      (r : IncomingRequest) (line : Bytes) (m : Mux E)
      → CoreSteps h m.core (handle_agent_request h x r line m).core
  unfolding handle_agent_request
  request-CoreSteps r line m =
      if_case (λ (n : Mux E). CoreSteps h m.core n.core)
        (is_blocked (mode_for_method m.core.client_tool_policy r.method)) (one (pushes _ refl))
        (trans (one (asks r.method r.id line refl))
          (trans (of_ctx (k.agent_request _ r.id r)) (one (fans line refl))))

  sweep_stale-CoreSteps : (m : Mux E) → CoreSteps h m.core (sweep_stale_agent_pending x m).core
  unfolding sweep_stale_agent_pending
  sweep_stale-CoreSteps m = sweep-CoreSteps (stale_ids m.core.agent_pending) m

  -- Removing the request and ending its turn are one step; the rest of the handler follows it.
  settle-CoreSteps :
      (n : ℕ) (r : IncomingResponse) (m : Mux E)
      → CoreSteps h (close_request n m.core) (settle h x n r (over_core (remove_pending n) m)).core
  unfolding settle
  settle-CoreSteps n r m = elim (Bool-cases (is_prompt_id m.core.prompt_in_flight n)) [
    | inl e ↦
        let ended = over_core (λ c. end_turn (remove_pending n c)) m in
        rw (e, settle)
          (trans (sweep_stale-CoreSteps ended)
            (of_ctx (k.prompt_settled (sweep_stale_agent_pending x ended) n r)))
    | inr e ↦ rw (e, settle) here
  ]

  complete-CoreSteps :
      (r : IncomingResponse) (kind : Option HandshakeKind) (m : Mux E)
      → CoreSteps h m.core (complete_handshake h x r kind m).core
  unfolding complete_handshake
  complete-CoreSteps r none m = here
  complete-CoreSteps r (some kind) m =
      if_case (λ (n : Mux E). CoreSteps h m.core n.core) (is_some r.error) here
        (handshake-CoreSteps kind r.result m)

  pub deliver-CoreSteps :
      (p : PendingRequest) (bytes : Bytes) (c : MuxCore) → CoreSteps h c (deliver h x p bytes c)
  unfolding deliver
  deliver-CoreSteps p bytes c =
      if_case (CoreSteps h c) p.deliver_response
        (if_case (CoreSteps h c) (is_empty bytes) here (by_send p.peer_id bytes c)) here

  pub answer-CoreSteps :
      (n : ℕ) (r : IncomingResponse) (p : PendingRequest) (m : Mux E)
      → CoreSteps h (close_request n m.core) (answer_pending h x n r p m).core
  unfolding answer_pending
  answer-CoreSteps n r p m = trans (settle-CoreSteps n _ m) (
      trans (complete-CoreSteps _ p.handshake _)
        (trans (of_ctx (k.agent_response _ n _)) (deliver-CoreSteps p _ _)))

  pub route-CoreSteps :
      (r : IncomingResponse) (m : Mux E) → CoreSteps h m.core (route_agent_response h x r m).core
  unfolding route_agent_response
  route-CoreSteps r m = elim (Option-cases (mux_id_of r.id)) [
    | inl e ↦ rw (e, route_agent_response) here
    | inr (n, e) ↦
        rw (e, route_agent_response)
          (elim (Option-cases (Map.get n m.core.pending)) [
            | inl absent ↦ rw absent here
            | inr (p, found) ↦ rw found (trans (one (closes n refl)) (answer-CoreSteps n r p m))
          ])
  ]

  dispatch_agent-CoreSteps :
      (f : Incoming) (line : Bytes) (m : Mux E)
      → CoreSteps h m.core (dispatch_agent h x f line m).core
  unfolding dispatch_agent
  dispatch_agent-CoreSteps (notification n) line m = notification-CoreSteps n line m
  dispatch_agent-CoreSteps (request r) line m = request-CoreSteps r line m
  dispatch_agent-CoreSteps (response r) line m = route-CoreSteps r m

  pub agent_line-CoreSteps :
      (line : Bytes) (m : Mux E) → CoreSteps h m.core (handle_agent_line h x line m).core
  unfolding handle_agent_line
  agent_line-CoreSteps line m =
      elim (parse h line)
        as (λ r.
          CoreSteps h m.core
            (elim r as (λ _. Mux E) [
              | err e ↦ over_core (broadcast h line) m
              | ok f ↦ dispatch_agent h x f line m
            ]).core) [ err e ↦ by_broadcast line m.core | ok f ↦ dispatch_agent-CoreSteps f line m ]
