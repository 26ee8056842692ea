-- ===== src/Rooms/Hooks/OfSubscriber.antt =====
-- crates/rooms/src/extension/mod.rs: the hooks on what subscribers send.
use acp_mux.Base.{
  ℕ, String, true, ◌&&◌, Option, none, some, is_some, and_then, or_else, if◌then◌else◌, ◌==◌,
  eq_text, eq_nat, wrapping_suc,
}
use acp_mux.Base.Map
use acp_mux.Json.{obj, end, get_field, str_param}
use acp_mux.Jsonrpc.{IncomingRequest, IncomingNotification}
use acp_mux.Host.{Host}
use acp_mux.Core.{MuxCore}
use acp_mux.Extension.{Disposition, NotifyDisposition}
use acp_mux.Rooms.{RoomsExtension, RoomsRequestData, session_busy_code, no_active_turn_code}
use acp_mux.Rooms.Frames.{formatted_turn, text_field, session_busy}
use acp_mux.Rooms.Metadata.{inject_request_trace_metadata}
use acp_mux.Rooms.Presence.{over_ext, note_driving_subscriber}
use acp_mux.Rooms.Turns.{say, emit_turn_started, peer_name_of, role_of}
use acp_mux.Rooms.Control.{text_from_text_only_prompt}
use acp_mux.Rooms.Queue.{
  Room, reply, pending_peer, handle_rooms_queue_prompt_request, handle_rooms_unqueue_prompt_request,
}
use acp_mux.Rooms.Steer.{handle_rooms_steer_request, cancel_active_turn}

-- The data of a forwarded request.
abbrev pub request_data : IncomingRequest → Option ℕ → RoomsRequestData
request_data req turn = record {
  rooms_turn_id = turn;
  queue_item_id = none;
  decorate_session_list = req.method == "session/list";
}

abbrev pub turn_of : Option RoomsRequestData → Option ℕ
turn_of d = and_then d (λ (k : RoomsRequestData). k.rooms_turn_id)

module _ (h : Host) where
  abbrev pub cancel_reply :
      String → IncomingRequest → Room × Option ℕ → Room × IncomingRequest × Disposition
  cancel_reply p req (m, some turn) = (
    reply h p req.id
        (obj
          (text_field "roomsTurnId" (formatted_turn turn) (text_field "status" "cancelling" end)))
        m,
    req,
    Disposition.handled,
  )
  cancel_reply p req (m, none) =
      (m, req, Disposition.reject no_active_turn_code "no active turn to cancel")

  unfoldable pub say_busy : Room → Room
  say_busy m =
      say h
        (session_busy h m.core.mux_id true (and_then m.core.prompt_in_flight (pending_peer m.core)))
        m

  abbrev pub forward_noted : String → IncomingRequest → Room → Room × IncomingRequest × Disposition
  forward_noted p req m = (
    if req.method == "initialize" then m else note_driving_subscriber p m,
    req,
    Disposition.forward,
  )

  unfoldable pub on_subscriber_request :
      Room → String → IncomingRequest → Room × IncomingRequest × Disposition
  on_subscriber_request m p req =
      if req.method == "rooms/steer_active_turn"
      then (handle_rooms_steer_request h p req m, req, Disposition.handled)
      else if req.method == "rooms/queue_prompt"
      then (handle_rooms_queue_prompt_request h p req m, req, Disposition.handled)
      else if req.method == "rooms/unqueue_prompt"
      then (handle_rooms_unqueue_prompt_request h p req m, req, Disposition.handled)
      else if req.method == "rooms/cancel_active_turn"
      then cancel_reply p req (cancel_active_turn h p (str_param req.params "reason") m)
      else if (req.method == "session/prompt") && is_some m.core.prompt_in_flight
      then (
        say_busy m,
        req,
        Disposition.reject session_busy_code "session busy: another turn is in flight",
      )
      else forward_noted p req m

  abbrev pub traced :
      RoomsExtension → MuxCore → String → ℕ → Option ℕ → IncomingRequest → IncomingRequest
  traced r c p mux_id turn req =
      if r.options.meta_propagate
      then inject_request_trace_metadata
          (record {
            peer_id = p;
            peer_name = peer_name_of c p;
            role = role_of c p;
            mux_id = mux_id;
            rooms_turn_id = turn;
          })
          req
      else req

  abbrev pub note_request : ℕ → RoomsRequestData → Room → Room
  note_request mux_id d m =
      over_ext (λ r. record r { per_request = Map.insert mux_id d r.per_request }) m

  -- A prompt takes the next number of a turn.
  unfoldable pub on_request_translating :
      Room → String → ℕ → IncomingRequest → Room × IncomingRequest
  on_request_translating m p mux_id req =
      let turn = m.ext.next_rooms_turn_id in
      if req.method == "session/prompt"
      then (
        note_request mux_id (request_data req (some turn))
            (over_ext (λ r. record r { next_rooms_turn_id = wrapping_suc turn }) m),
        traced m.ext m.core p mux_id (some turn) req,
      )
      else (note_request mux_id (request_data req none) m, traced m.ext m.core p mux_id none req)

  unfoldable pub on_request_forwarded : Room → String → ℕ → IncomingRequest → Room
  on_request_forwarded m p mux_id req = elim (turn_of (Map.get mux_id m.ext.per_request)) [
    | none ↦ m
    | some turn ↦ emit_turn_started h p turn req.params none (
        over_ext
          (λ r. record r {
            active_rooms_turn_id = some turn;
            active_turn_session_id =
                or_else (str_param req.params "sessionId") m.core.canonical_session_id;
            active_turn_prompt_text =
                and_then (and_then req.params (λ v. get_field v "prompt"))
                  text_from_text_only_prompt;
          })
          m)
  ]

  unfoldable pub on_subscriber_notification :
      Room → String → IncomingNotification → Room × NotifyDisposition
  on_subscriber_notification m p n =
      if n.method == "rooms/cancel_active_turn"
      then ((cancel_active_turn h p (str_param n.params "reason") m).0, NotifyDisposition.handled)
      else (m, NotifyDisposition.passthrough)
