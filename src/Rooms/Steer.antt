-- ===== src/Rooms/Steer.antt =====
-- crates/rooms/src/extension/queue.rs and mod.rs: the steering and the cancelling of a turn.
use acp_mux.Base.{ℕ, String, true, false, ◌∷◌, Option, none, some, is_some, if◌then◌else◌}
use acp_mux.Json.{obj, bool, end, field}
use acp_mux.Jsonrpc.{RequestId, IncomingRequest, ok, err}
use acp_mux.Host.{Host}
use acp_mux.Extension.{over_core}
use acp_mux.Extension.Ctx.{send_to_agent}
use acp_mux.Rooms.{QueuedPrompt, prompt, hard_steer, no_active_turn_code, invalid_params_code}
use acp_mux.Rooms.Frames.{formatted_turn, text_field, control_submitted, turn_cancelled}
use acp_mux.Rooms.Turns.{say, peer_name_of, role_of}
use acp_mux.Rooms.Control.{ActiveControlParams, control_params}
use acp_mux.Rooms.Queue.{
  Room, set_queue, submit_next_queued_prompt, reply, reject, has_pending_hard_steer,
  original_driver, build_hard_steer_prompt, build_session_cancel,
}

abbrev pub push_front : QueuedPrompt → Room → Room
push_front p m = set_queue (p ∷ m.ext.queued_prompts) m

abbrev pub idle_prompt : String → ActiveControlParams → QueuedPrompt
idle_prompt peer control = record {
  queue_item_id = none;
  peer_id = peer;
  session_id = control.session_id;
  prompt_text = control.text;
  kind = prompt;
}

abbrev pub steering_prompt : String → ActiveControlParams → ℕ → Option String → QueuedPrompt
steering_prompt peer control turn original = record {
  queue_item_id = none;
  peer_id = peer;
  session_id = control.session_id;
  prompt_text = build_hard_steer_prompt peer turn original control.text;
  kind = hard_steer turn;
}

module _ (h : Host) where
  abbrev pub submit_frame : String → ℕ → String → String → Room → Room
  submit_frame mode turn peer text m =
      say h
        (control_submitted h m.core.mux_id "steer" mode peer (peer_name_of m.core peer)
          (role_of m.core peer) (some turn) text)
        m

  unfoldable pub handle_rooms_idle_steer_request :
      String → RequestId → ActiveControlParams → Room → Room
  handle_rooms_idle_steer_request peer id control m =
      let turn = m.ext.next_rooms_turn_id in
      let pushed =
        push_front (idle_prompt peer control) (submit_frame "prompt" turn peer control.text m) in
      reply h peer id
        (obj (
          field "accepted" (bool true) (
            text_field "mode" "prompt" (
              text_field "status" "submitted"
                (text_field "roomsTurnId" (formatted_turn turn) end)))))
        (submit_next_queued_prompt h pushed).0

  -- The turn in flight is superseded: its replacement waits at the front for the turn's end.
  unfoldable pub steer_hard : String → RequestId → ActiveControlParams → ℕ → String → Room → Room
  steer_hard peer id control turn session m =
      let announced =
        say h
          (turn_cancelled h m.core.mux_id turn peer (original_driver m.core peer)
            (some "hard_steer"))
          (submit_frame "hard" turn peer control.text m) in
      let pushed =
        push_front (steering_prompt peer control turn m.ext.active_turn_prompt_text) announced in
      over_core (send_to_agent h (build_session_cancel h session)) (
        reply h peer id
          (obj (
            field "accepted" (bool true)
              (text_field "mode" "hard" (text_field "supersedesTurnId" (formatted_turn turn) end))))
          pushed)

  -- A turn in flight that the room did not number gets no answer.
  abbrev pub steer_active :
      Option ℕ → Option String → String → RequestId → ActiveControlParams → Room → Room
  steer_active none session peer id control m = m
  steer_active (some turn) none peer id control m =
      reject h peer id
        (record {
          code = invalid_params_code;
          message = "rooms control could not determine the active ACP sessionId";
        })
        m
  steer_active (some turn) (some session) peer id control m =
      steer_hard peer id control turn session m

  unfoldable pub steer : String → RequestId → ActiveControlParams → Room → Room
  unfolding steer_hard handle_rooms_idle_steer_request
  steer peer id control m =
      if is_some m.core.prompt_in_flight
      then if has_pending_hard_steer m.ext.queued_prompts
        then reject h peer id
            (record {
              code = no_active_turn_code;
              message = "a hard steer is already pending for this turn";
            })
            m
        else steer_active m.ext.active_rooms_turn_id m.ext.active_turn_session_id peer id control m
      else handle_rooms_idle_steer_request peer id control m

  unfoldable pub handle_rooms_steer_request : String → IncomingRequest → Room → Room
  unfolding steer
  handle_rooms_steer_request peer req m = elim (control_params false m.ext m.core req) [
    | err e ↦ reject h peer req.id e m
    | ok control ↦ steer peer req.id control m
  ]

  abbrev pub cancel_turn :
      Option ℕ → Option String → String → Option String → Room → Room × Option ℕ
  cancel_turn (some turn) (some session) peer reason m = (
    over_core (send_to_agent h (build_session_cancel h session))
        (say h (turn_cancelled h m.core.mux_id turn peer (original_driver m.core peer) reason) m),
    some turn,
  )
  cancel_turn none session peer reason m = (m, none)
  cancel_turn (some turn) none peer reason m = (m, none)

  unfoldable pub cancel_active_turn : String → Option String → Room → Room × Option ℕ
  cancel_active_turn peer reason m =
      cancel_turn m.ext.active_rooms_turn_id m.ext.active_turn_session_id peer reason m
