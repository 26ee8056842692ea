-- ===== src/Mux/Inbound.antt =====
-- crates/acp-mux/src/mux/actor.rs: frames from a subscriber.
use acp_mux.Base.{
  ℕ, String, Bool, true, List, [], ◌∷◌, ◌++◌, Option, none, some, is_some, if◌then◌else◌, eq_text,
  eq_nat, ◌&&◌, ◌==◌, map_some, and_then, ℤ, negsuc, as_i64, saturating_suc,
}
use acp_mux.Base.Map
use acp_mux.Json.{Value, obj, str, Fields, field, end, get_key, get_field, insert_key, remove_key}
use acp_mux.Jsonrpc.{
  RequestId, number, id_eq, eq_id, id_of_value, IncomingRequest, IncomingNotification,
  IncomingResponse, Incoming, request, notification, response, ok, err,
}
use acp_mux.Jsonrpc.Write.{to_value, id_to_value}
use acp_mux.Host.{Host, Bytes, parse, to_vec_or_empty}
use acp_mux.Core.{HandshakeKind, PendingRequest, AgentReqState, in_flight, consumed, MuxCore}
use acp_mux.Core.Send.{send_result_response, send_error_response}
use acp_mux.Extension.{Mux, MuxExtension, Disposition, NotifyDisposition, peer, over_core}
use acp_mux.Mux.Session.{consume, handshake_kind}
use acp_mux.Mux.Local.{handle_attach_request, handle_detach_request}

abbrev pub session_busy_error_code : ℤ
session_busy_error_code = negsuc 32000

abbrev pub push_outbox : Bytes → MuxCore → MuxCore
push_outbox bytes c = record c { agent_outbox = c.agent_outbox ++ bytes ∷ [] }

-- `parse_cancel_request_id`: a missing, unreadable or null id is none.
abbrev pub non_null : RequestId → Option RequestId
non_null RequestId.null = none
non_null id = some id

unfoldable pub parse_cancel_request_id : Option Value → Option RequestId
parse_cancel_request_id params =
    and_then (and_then params (λ v. get_field v "requestId"))
      (λ v. and_then (id_of_value v) non_null)

-- The value of a `$/cancel_request` frame.
unfoldable pub cancel_request_to_value : RequestId → Value
cancel_request_to_value id = obj (
    field "jsonrpc" (str "2.0") (
      field "method" (str "$/cancel_request")
        (field "params" (obj (field "requestId" (id_to_value id) end)) end)))

-- The first entry, in the order of iteration, with this peer and original id.
unfoldable pub find_pending : String → RequestId → List (ℕ × PendingRequest) → Option ℕ
find_pending peer_id id [] = none
find_pending peer_id id ((k, p) ∷ rest) =
    if (p.peer_id == peer_id) && id_eq p.original_id id
    then some k
    else find_pending peer_id id rest

-- `sanitize_initialize_client_capabilities`, on the parameters.
abbrev pub drop_client_tools : Value → Value
drop_client_tools (obj caps) = obj (remove_key "terminal" (remove_key "fs" caps))
drop_client_tools v = v

abbrev pub replace_capabilities : Fields → Option Value → Fields
replace_capabilities params none = params
replace_capabilities params (some v) = insert_key "clientCapabilities" (drop_client_tools v) params

unfoldable pub sanitize_params : Option Value → Option Value
sanitize_params (some (obj params)) =
    some (obj (replace_capabilities params (get_key "clientCapabilities" params)))
sanitize_params other = other

unfoldable pub sanitize : IncomingRequest → IncomingRequest
sanitize req =
    if req.method == "initialize" then record req { params = sanitize_params req.params } else req

-- `std::mem::replace(&mut req.id, …)`: the request under its mux id.
unfoldable pub renumber : ℕ → IncomingRequest → IncomingRequest
renumber mux_id req = record req { id = number (as_i64 mux_id) }

abbrev pub pending_for : String → RequestId → Option HandshakeKind → PendingRequest
pending_for peer_id id kind = record {
  peer_id = peer_id;
  original_id = id;
  handshake = kind;
  deliver_response = true;
}

-- The books of a forwarded request, and its frame in the outbox.
unfoldable pub enter_request : ℕ → PendingRequest → Bool → Bytes → MuxCore → MuxCore
enter_request mux_id entry is_prompt bytes c = record c {
  pending = Map.insert mux_id entry c.pending;
  prompt_in_flight = if is_prompt then some mux_id else c.prompt_in_flight;
  agent_outbox = c.agent_outbox ++ bytes ∷ [];
}

module _ (h : Host) {E : Type 0} (x : MuxExtension E) where
  unfoldable pub handle_subscriber_cancel : String → IncomingNotification → Mux E → Option Bytes
  handle_subscriber_cancel peer_id notif m = and_then (parse_cancel_request_id notif.params) λ id.
      map_some (λ k. to_vec_or_empty h (cancel_request_to_value (number (as_i64 k))))
        (find_pending peer_id id m.core.pending)

  abbrev pub push_some : Option Bytes → Mux E → Mux E
  push_some none m = m
  push_some (some bytes) m = over_core (push_outbox bytes) m

  unfoldable pub handle_subscriber_notification :
      String → IncomingNotification → Bytes → Mux E → Mux E
  handle_subscriber_notification peer_id notif bytes m =
      if notif.method == "$/cancel_request"
      then push_some (handle_subscriber_cancel peer_id notif m) m
      else let r = x.on_subscriber_notification m peer_id notif in
        elim r.1 [
          | NotifyDisposition.passthrough ↦ over_core (push_outbox bytes) r.0
          | NotifyDisposition.handled ↦ r.0
        ]

  -- The first reply to a request in flight goes to the agent; later ones are dropped; a reply to an
  -- unknown id is passed on.
  unfoldable pub gate_by_state :
      Option AgentReqState → String → IncomingResponse → Bytes → Mux E → Mux E
  gate_by_state (some in_flight) peer_id resp bytes m = over_core (push_outbox bytes) (
      x.on_agent_request_resolved (over_core (consume resp.id) m) resp.id (peer peer_id)
        (some resp))
  gate_by_state (some consumed) peer_id resp bytes m = m
  gate_by_state none peer_id resp bytes m = over_core (push_outbox bytes) m

  unfoldable pub gate_subscriber_response : String → IncomingResponse → Bytes → Mux E → Mux E
  unfolding gate_by_state
  gate_subscriber_response peer_id resp bytes m =
      gate_by_state (Map.get resp.id m.core.agent_pending) peer_id resp bytes m

  -- The request is printed, and entered unless nothing was printed.
  unfoldable pub submit :
      String → ℕ → PendingRequest → Bool → IncomingRequest → Bytes → Mux E → Mux E
  submit peer_id mux_id entry is_prompt req [] m = m
  submit peer_id mux_id entry is_prompt req (b ∷ bytes) m =
      x.on_request_forwarded (over_core (enter_request mux_id entry is_prompt (b ∷ bytes)) m)
        peer_id mux_id req

  unfoldable pub forward_request : String → IncomingRequest → Mux E → Mux E
  unfolding submit
  forward_request peer_id req m =
      let mux_id = m.core.next_mux_id in
      let numbered = over_core (λ c. record c { next_mux_id = saturating_suc c.next_mux_id }) m in
      let sanitized = sanitize req in
      let renumbered = renumber mux_id sanitized in
      let r = x.on_request_translating numbered peer_id mux_id renumbered in
      submit peer_id mux_id (pending_for peer_id sanitized.id (handshake_kind renumbered))
        (renumbered.method == "session/prompt") r.1 (to_vec_or_empty h (to_value (request r.1))) r.0

  unfoldable pub admit_request : String → IncomingRequest → Mux E → Mux E
  unfolding forward_request
  admit_request peer_id req m =
      if (req.method == "session/prompt") && is_some m.core.prompt_in_flight
      then over_core (send_error_response h peer_id req.id session_busy_error_code "session busy") m
      else forward_request peer_id req m

  unfoldable pub offer_request : String → IncomingRequest → Mux E → Mux E
  unfolding admit_request
  offer_request peer_id req m =
      let r = x.on_subscriber_request m peer_id req in
      elim r.2 [
        | Disposition.handled ↦ r.0
        | Disposition.reject code message ↦
            over_core (send_error_response h peer_id r.1.id code message) r.0
        | Disposition.forward ↦ admit_request peer_id r.1 r.0
      ]

  -- A cached result answers the request; otherwise the extension is asked.
  unfoldable pub answer_or_offer : Option Value → String → IncomingRequest → Mux E → Mux E
  unfolding offer_request
  answer_or_offer none peer_id req m = offer_request peer_id req m
  answer_or_offer (some result) peer_id req m =
      over_core (send_result_response h peer_id req.id result) m

  unfoldable pub translate_outbound_request : String → IncomingRequest → Mux E → Mux E
  unfolding answer_or_offer
  translate_outbound_request peer_id req m =
      if req.method == "session/attach"
      then handle_attach_request h x peer_id req m
      else if req.method == "session/detach"
      then handle_detach_request h x peer_id req m
      else if req.method == "initialize"
      then answer_or_offer m.core.initialize_cache peer_id req m
      else if req.method == "session/new"
      then answer_or_offer m.core.session_new_cache peer_id req m
      else offer_request peer_id req m

  unfoldable pub dispatch_inbound : String → Incoming → Bytes → Mux E → Mux E
  dispatch_inbound peer_id (notification n) bytes m =
      handle_subscriber_notification peer_id n bytes m
  dispatch_inbound peer_id (response r) bytes m = gate_subscriber_response peer_id r bytes m
  dispatch_inbound peer_id (request r) bytes m = translate_outbound_request peer_id r m

  -- A frame that cannot be parsed is dropped.
  unfoldable pub handle_inbound : String → Bytes → Mux E → Mux E
  unfolding dispatch_inbound
  handle_inbound peer_id bytes m = elim (parse h bytes) [
    | err e ↦ m
    | ok frame ↦ dispatch_inbound peer_id frame bytes m
  ]
