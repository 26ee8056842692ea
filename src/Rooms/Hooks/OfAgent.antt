-- ===== src/Rooms/Hooks/OfAgent.antt =====
-- crates/rooms/src/extension/mod.rs: the hooks on what the agent sends, and on the end of a turn.
use acp_mux.Rooms.Hooks.OfSubscriber.{turn_of}
use acp_mux.Base.{
  ℕ, String, Bool, false, Option, none, some, and_then, or_else, map_some, if◌then◌else◌, eq_text,
  eq_nat,
}
use acp_mux.Base.Map
use acp_mux.Json.{Value}
use acp_mux.Jsonrpc.{RequestId, IncomingRequest, IncomingResponse}
use acp_mux.Jsonrpc.Write.{id_to_value, error_to_value}
use acp_mux.Host.{Host}
use acp_mux.Extension.{ResolvedBy, peer, agent_cancelled, turn_ended}
use acp_mux.Rooms.{RoomsRequestData}
use acp_mux.Rooms.Frames.{agent_request_opened, agent_request_resolved, queue_item_completed}
use acp_mux.Rooms.Presence.{over_ext, decorate_session_list_response}
use acp_mux.Rooms.Turns.{say, emit_turn_complete, field_or_null}
use acp_mux.Rooms.Queue.{Room, submit_next_queued_prompt}

abbrev pub decorates : Option RoomsRequestData → Bool
decorates none = false
decorates (some d) = d.decorate_session_list

abbrev pub item_of : Option RoomsRequestData → Option String
item_of d = and_then d (λ (k : RoomsRequestData). k.queue_item_id)

abbrev pub resolver_name : ResolvedBy → String
resolver_name (peer p) = p
resolver_name agent_cancelled = "agent:cancelled"
resolver_name turn_ended = "mux:turn-ended"

module _ (h : Host) where
  unfoldable pub on_agent_request : Room → RequestId → IncomingRequest → Room
  on_agent_request m id req =
      say h
        (agent_request_opened h m.core.mux_id (id_to_value id) req.method req.params
          m.ext.active_rooms_turn_id)
        m

  unfoldable pub on_agent_response : Room → ℕ → IncomingResponse → Room × IncomingResponse
  on_agent_response m mux_id resp = (
    m,
    if decorates (Map.get mux_id m.ext.per_request)
        then decorate_session_list_response m.ext resp
        else resp,
  )

  abbrev pub complete_item : Option String → ℕ → Option Value → Room → Room
  complete_item none turn result m = m
  complete_item (some id) turn result m =
      say h (queue_item_completed h m.core.mux_id id turn (field_or_null result "stopReason")) m

  abbrev pub complete_turn : Option ℕ → Option String → Option Value → Room → Room
  complete_turn none item result m = m
  complete_turn (some turn) item result m =
      complete_item item turn result (emit_turn_complete h turn result m)

  unfoldable pub forget_turn : ℕ → Room → Room
  forget_turn mux_id m =
      over_ext
        (λ r. record r {
          per_request = Map.remove mux_id r.per_request;
          active_turn_session_id = none;
          active_turn_prompt_text = none;
          active_rooms_turn_id = none;
        })
        m

  -- The turn ends, and the next prompt that waits is submitted.
  unfoldable pub on_prompt_settled : Room → ℕ → IncomingResponse → Room
  unfolding forget_turn
  on_prompt_settled m mux_id resp =
      let d = Map.get mux_id m.ext.per_request in
      (submit_next_queued_prompt h (
        complete_turn (or_else m.ext.active_rooms_turn_id (turn_of d)) (item_of d) resp.result
          (forget_turn mux_id m))).0

  unfoldable pub on_agent_request_resolved :
      Room → RequestId → ResolvedBy → Option IncomingResponse → Room
  on_agent_request_resolved m id by resp =
      say h
        (agent_request_resolved h m.core.mux_id (id_to_value id) (resolver_name by)
          (and_then resp (λ (r : IncomingResponse). r.result))
          (and_then resp (λ (r : IncomingResponse). map_some error_to_value r.error)))
        m
