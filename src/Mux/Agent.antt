-- ===== src/Mux/Agent.antt =====
-- crates/acp-mux/src/mux/actor.rs: lines from the agent.
use acp_mux.Base.{
  ℕ, String, Bool, true, false, [], ◌∷◌, ◌++◌, Option, none, some, is_some, if◌then◌else◌, eq_text,
  eq_nat, ◌==◌, ℤ, pos, negsuc,
}
use acp_mux.Base.Map
use Prim.Native.String.{◌++◌ as text_append}
use acp_mux.Json.{obj, str, field, end, str_param}
use acp_mux.Jsonrpc.{
  RequestId, number, eq_id, IncomingRequest, IncomingNotification, IncomingResponse, Incoming,
  request, notification, response, ok, err,
}
use acp_mux.Jsonrpc.Write.{to_value}
use acp_mux.Host.{Host, Bytes, is_empty, parse, to_vec_or_empty}
use acp_mux.Policy.{ClientToolMode, block, unsafe_debug, mode_for_method}
use acp_mux.Core.{HandshakeKind, PendingRequest, in_flight, consumed, MuxCore}
use acp_mux.Core.Send.{broadcast, fanout, send_to}
use acp_mux.Extension.{Mux, MuxExtension, agent_cancelled, over_core}
use acp_mux.Mux.Session.{
  consume, set_canonical_session_id, apply_successful_handshake, sweep_stale_agent_pending,
}
use acp_mux.Mux.Inbound.{parse_cancel_request_id, push_outbox}

abbrev pub client_tool_blocked_error_code : ℤ
client_tool_blocked_error_code = negsuc 31999

-- The answer to a blocked client-tool request.
unfoldable pub blocked_response : RequestId → String → IncomingResponse
blocked_response id method = record {
  id = id;
  result = none;
  error = some (record {
    code = client_tool_blocked_error_code;
    message = text_append "client tool request blocked by acp-mux policy: " method;
    payload = some (
        obj (
          field "reason" (str "client_tool_blocked")
            (field "method" (str method) (field "policy" (str "block") end))));
  });
}

abbrev pub is_blocked : Option ClientToolMode → Bool
is_blocked (some block) = true
is_blocked (some unsafe_debug) = false
is_blocked none = false

-- `entry(id).or_insert(InFlight)`: an id that is known keeps its state.
unfoldable pub open_request : RequestId → MuxCore → MuxCore
open_request id c =
    if is_some (Map.get id c.agent_pending)
    then c
    else record c { agent_pending = Map.insert id in_flight c.agent_pending }

unfoldable pub note_permission : String → RequestId → Bytes → MuxCore → MuxCore
note_permission method id bytes c =
    if method == "session/request_permission"
    then record c { pending_permissions = c.pending_permissions ++ (id, bytes) ∷ [] }
    else c

unfoldable pub consume_in_flight : RequestId → MuxCore → MuxCore
consume_in_flight id c = elim (Map.get id c.agent_pending) [
  | some in_flight ↦ consume id c
  | some consumed ↦ c
  | none ↦ c
]

-- The agent names another session than the established one.
abbrev pub switched_session : Option String → Option String → Option String
switched_session (some sid) (some canonical) = if canonical == sid then none else some sid
switched_session _ _ = none

-- A mux id is a number that is not negative.
abbrev pub mux_id_of : RequestId → Option ℕ
mux_id_of (number (pos n)) = some n
mux_id_of _ = none

abbrev pub is_prompt_id : Option ℕ → ℕ → Bool
is_prompt_id none n = false
is_prompt_id (some k) n = k == n

module _ (h : Host) {E : Type 0} (x : MuxExtension E) where
  unfoldable pub handle_agent_cancel : IncomingNotification → Bytes → Mux E → Mux E
  handle_agent_cancel notif line m = elim (parse_cancel_request_id notif.params) [
    | none ↦ m
    | some id ↦
        x.on_agent_request_resolved (over_core (λ c. broadcast h line (consume_in_flight id c)) m)
          id agent_cancelled none
  ]

  abbrev pub follow_session : Option String → Mux E → Mux E
  follow_session none m = m
  follow_session (some sid) m = set_canonical_session_id x sid false m

  unfoldable pub handle_agent_notification : IncomingNotification → Bytes → Mux E → Mux E
  handle_agent_notification notif line m =
      if notif.method == "$/cancel_request"
      then handle_agent_cancel notif line m
      else let switched =
          follow_session
            (switched_session (str_param notif.params "sessionId") m.core.canonical_session_id) m in
        over_core (broadcast h line) (x.on_agent_notification switched notif)

  unfoldable pub handle_agent_request : IncomingRequest → Bytes → Mux E → Mux E
  handle_agent_request req line m =
      if is_blocked (mode_for_method m.core.client_tool_policy req.method)
      then over_core
          (push_outbox
            (to_vec_or_empty h (to_value (response (blocked_response req.id req.method)))))
          m
      else over_core (fanout line) (
          x.on_agent_request
            (over_core (λ c. note_permission req.method req.id line (open_request req.id c)) m)
            req.id req)

  -- A response to the prompt in flight ends the turn.
  unfoldable pub settle : ℕ → IncomingResponse → Mux E → Mux E
  settle mux_id resp m =
      if is_prompt_id m.core.prompt_in_flight mux_id
      then x.on_prompt_settled
          (sweep_stale_agent_pending x (over_core (λ c. record c { prompt_in_flight = none }) m))
          mux_id resp
      else m

  unfoldable pub complete_handshake : IncomingResponse → Option HandshakeKind → Mux E → Mux E
  complete_handshake resp none m = m
  complete_handshake resp (some kind) m =
      if is_some resp.error then m else apply_successful_handshake x kind resp.result m

  unfoldable pub deliver : PendingRequest → Bytes → MuxCore → MuxCore
  deliver p bytes c =
      if p.deliver_response then (if is_empty bytes then c else send_to p.peer_id bytes c) else c

  unfoldable pub answer_pending : ℕ → IncomingResponse → PendingRequest → Mux E → Mux E
  unfolding deliver
  answer_pending mux_id resp p m =
      let restored = record resp { id = p.original_id } in
      let removed = over_core (λ c. record c { pending = Map.remove mux_id c.pending }) m in
      let settled = settle mux_id restored removed in
      let shaken = complete_handshake restored p.handshake settled in
      let r = x.on_agent_response shaken mux_id restored in
      over_core (deliver p (to_vec_or_empty h (to_value (response r.1)))) r.0

  unfoldable pub route_agent_response : IncomingResponse → Mux E → Mux E
  unfolding answer_pending
  route_agent_response resp m = elim (mux_id_of resp.id) [
    | none ↦ m
    | some mux_id ↦ elim (Map.get mux_id m.core.pending) [
      | none ↦ m
      | some p ↦ answer_pending mux_id resp p m
    ]
  ]

  unfoldable pub dispatch_agent : Incoming → Bytes → Mux E → Mux E
  dispatch_agent (notification n) line m = handle_agent_notification n line m
  dispatch_agent (request r) line m = handle_agent_request r line m
  dispatch_agent (response r) line m = route_agent_response r m

  -- A line that cannot be parsed is broadcast as it is.
  unfoldable pub handle_agent_line : Bytes → Mux E → Mux E
  unfolding dispatch_agent
  handle_agent_line line m = elim (parse h line) [
    | err e ↦ over_core (broadcast h line) m
    | ok frame ↦ dispatch_agent frame line m
  ]
