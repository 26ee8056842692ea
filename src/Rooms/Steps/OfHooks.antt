-- ===== src/Rooms/Steps/OfHooks.antt =====
-- The hooks of the Rooms extension as steps of a room.
use acp_mux.Rooms.Control.{text_from_text_only_prompt}
use acp_mux.Rooms.Steer.{cancel_active_turn}
use acp_mux.Extension.{NotifyDisposition, Disposition}
use acp_mux.Rooms.Frames.{peer_left}
use acp_mux.Jsonrpc.{IncomingRequest, IncomingNotification, IncomingResponse}
use acp_mux.Attach.{AttachParams, AttachResult}
use acp_mux.Rooms.Presence.{set_driver, clear_session_list_metadata, over_ext}
use acp_mux.Mux.Session.{same_text}
use acp_mux.Json.{Value, str_param, get_field}
use acp_mux.Rooms.Views.Phases.{
  tell_all, WakeReplayPhase, send_replay_phase, schedule_wake_payload, WakePayload, schedule_rest,
  on_wake, wake, payload_to_value, replay_stream, pending_permissions, payload_of_value,
}
use acp_mux.Rooms.Joined.{schedule_permissions, on_attach, is_pending_only, permission_frames}
use acp_mux.Rooms.Hooks.{
  drop_driver, say_orphaned, reset_replay, follow_segment, complete_item, complete_turn,
  segment_session, on_subscriber_detached, on_canonical_session_id, on_subscriber_notification,
  on_subscriber_request, on_subscriber_attached, on_request_forwarded, on_request_translating,
  on_prompt_settled, say_busy, forget_turn, orphaned_ids, cancel_reply, turn_of,
}
use acp_mux.Rooms.Turns.{emit_turn_complete, emit_turn_started, say}
use acp_mux.Base.Map
use acp_mux.Base.{
  eq_text, eq_nat, ◌==◌, ◌&&◌, ℕ, String, Bool, List, [], ◌∷◌, Option, none, some, refl, if_case,
  Option-cases, inl, inr, and_then, nat_eq, or_else, length, ◌==◌, ◌&&◌, is_some,
}
use acp_mux.Rooms.Steps.{
  rotates, RoomSteps, here, trans, one, by_notes, by_say, by_tell, by_wake, Host, Room, Bytes,
}
use acp_mux.Rooms.Steps.OfQueue.{
  publish-RoomSteps, note_driving-RoomSteps, submit_next-RoomSteps, result-RoomSteps,
  queue_prompt-RoomSteps, unqueue-RoomSteps, steer_request-RoomSteps, cancel-RoomSteps,
}

module _ {h : Host} where
  pub subscriber_request-RoomSteps :
      (m : Room) (p : String) (req : IncomingRequest)
      → RoomSteps h m (on_subscriber_request h m p req).0
  unfolding on_subscriber_request say_busy
  subscriber_request-RoomSteps m p req =
      let P = λ (r : Room × IncomingRequest × Disposition). RoomSteps h m r.0 in
      let cancelled = cancel_active_turn h p (str_param req.params "reason") m in
      let answered : (turn : Option ℕ)
          → RoomSteps h m (cancel_reply h p req (cancelled.0, turn)).0 =
        λ turn. elim turn as (λ t. RoomSteps h m (cancel_reply h p req (cancelled.0, t)).0) [
          | none ↦ cancel-RoomSteps p _ m
          | some t ↦ trans (cancel-RoomSteps p _ m) (result-RoomSteps p req.id _ _)
        ] in
      if_case P (req.method == "rooms/steer_active_turn") (steer_request-RoomSteps p req m) (
        if_case P (req.method == "rooms/queue_prompt") (queue_prompt-RoomSteps p req m) (
          if_case P (req.method == "rooms/unqueue_prompt") (unqueue-RoomSteps p req m) (
            if_case P (req.method == "rooms/cancel_active_turn") (answered cancelled.1) (
              if_case P ((req.method == "session/prompt") && is_some m.core.prompt_in_flight)
                (by_say _ m)
                (if_case (RoomSteps h m) (req.method == "initialize") here
                  (note_driving-RoomSteps p m))))))

  pub translating-RoomSteps :
      (m : Room) (p : String) (n : ℕ) (req : IncomingRequest)
      → RoomSteps h m (on_request_translating h m p n req).0
  unfolding on_request_translating
  translating-RoomSteps m p n req =
      if_case (λ (r : Room × IncomingRequest). RoomSteps h m r.0) (req.method == "session/prompt")
        (by_notes _ refl refl) (by_notes _ refl refl)

  pub forwarded-RoomSteps :
      (m : Room) (p : String) (n : ℕ) (req : IncomingRequest)
      → RoomSteps h m (on_request_forwarded h m p n req)
  unfolding on_request_forwarded emit_turn_started
  forwarded-RoomSteps m p n req = elim (Option-cases (turn_of (Map.get n m.ext.per_request))) [
    | inl e ↦ rw (e, on_request_forwarded) here
    | inr (turn, e) ↦
        rw (e, on_request_forwarded) (trans (by_notes _ refl refl) (by_say _ (noted turn)))
  ]
    where
      noted : ℕ → Room
      noted turn =
          over_ext
            (λ r. record r {
              active_rooms_turn_id = some turn;
              active_turn_session_id =
                  or_else (str_param req.params "sessionId") m.core.canonical_session_id;
              active_turn_prompt_text =
                  and_then (and_then req.params (λ v. get_field v "prompt"))
                    text_from_text_only_prompt;
            })
            m

  pub notification-RoomSteps :
      (m : Room) (p : String) (n : IncomingNotification)
      → RoomSteps h m (on_subscriber_notification h m p n).0
  unfolding on_subscriber_notification
  notification-RoomSteps m p n =
      if_case (λ (r : Room × NotifyDisposition). RoomSteps h m r.0)
        (n.method == "rooms/cancel_active_turn") (cancel-RoomSteps p _ m) here

  complete_item-RoomSteps :
      (item : Option String) (turn : ℕ) (result : Option Value) (m : Room)
      → RoomSteps h m (complete_item h item turn result m)
  complete_item-RoomSteps none turn result m = here
  complete_item-RoomSteps (some id) turn result m = by_say _ m

  complete-RoomSteps :
      (turn : Option ℕ) (item : Option String) (result : Option Value) (m : Room)
      → RoomSteps h m (complete_turn h turn item result m)
  unfolding emit_turn_complete
  complete-RoomSteps none item result m = here
  complete-RoomSteps (some turn) item result m =
      trans (by_say _ m) (complete_item-RoomSteps item turn result _)

  pub prompt_settled-RoomSteps :
      (m : Room) (n : ℕ) (resp : IncomingResponse) → RoomSteps h m (on_prompt_settled h m n resp)
  unfolding on_prompt_settled forget_turn
  prompt_settled-RoomSteps m n resp =
      trans (by_notes (forget_turn h n m) refl refl)
        (trans (complete-RoomSteps _ _ resp.result (forget_turn h n m)) (submit_next-RoomSteps _))

  reset-RoomSteps : (s : String) (m : Room) → RoomSteps h m (reset_replay h s m)
  unfolding reset_replay
  reset-RoomSteps s m = by_notes _ refl refl

  follow-RoomSteps :
      (s : String) (via_load : Bool) (m : Room) → RoomSteps h m (follow_segment h s via_load m)
  follow-RoomSteps s via_load m =
      if_case (RoomSteps h m) (same_text (segment_session h m.ext) s) here
        (one (rotates _ _ _ refl))

  pub canonical-RoomSteps :
      (m : Room) (old : Option String) (s : String) (via_load : Bool)
      → RoomSteps h m (on_canonical_session_id h m old s via_load)
  unfolding on_canonical_session_id
  canonical-RoomSteps m old s via_load = trans (follow-RoomSteps s via_load m) (
      trans
        (if_case (RoomSteps h (follow_segment h s via_load m)) via_load (reset-RoomSteps s _) here)
        (publish-RoomSteps _))

  pub attached-RoomSteps : (m : Room) (p : String) → RoomSteps h m (on_subscriber_attached h m p)
  unfolding on_subscriber_attached
  attached-RoomSteps m p = trans (by_tell p _ m) (publish-RoomSteps _)

  orphaned-RoomSteps :
      (p : String) (ids : List String) (m : Room) → RoomSteps h m (say_orphaned h p ids m)
  unfolding say_orphaned
  orphaned-RoomSteps p [] m = here
  orphaned-RoomSteps p (id ∷ ids) m = trans (by_say _ m) (orphaned-RoomSteps p ids _)

  drop_driver-RoomSteps : (p : String) (m : Room) → RoomSteps h m (drop_driver h p m)
  drop_driver-RoomSteps p m =
      if_case (RoomSteps h m) (same_text m.ext.driving_subscriber_peer_id p)
        (by_notes (set_driver none m) refl refl) here

  pub detached-RoomSteps : (m : Room) (p : String) → RoomSteps h m (on_subscriber_detached h m p)
  unfolding on_subscriber_detached clear_session_list_metadata
  detached-RoomSteps m p =
      let told =
        say_orphaned h p (orphaned_ids p m.ext.queued_prompts)
          (say h (peer_left h m.core.mux_id p) m) in
      let left = drop_driver h p told in
      trans (by_say _ m) (
        trans (orphaned-RoomSteps p (orphaned_ids p m.ext.queued_prompts) _) (
          trans (drop_driver-RoomSteps p told) (
            if_case (RoomSteps h left) (nat_eq (length left.core.subscribers) 0)
              (by_notes _ refl refl) (publish-RoomSteps left))))

  tell_all-RoomSteps :
      (p : String) (fs : List String) (m : Room) → RoomSteps h m (tell_all h p fs m)
  tell_all-RoomSteps p [] m = here
  tell_all-RoomSteps p (f ∷ fs) m = trans (by_tell p _ m) (tell_all-RoomSteps p fs _)

  phase-RoomSteps : (p : WakeReplayPhase) (m : Room) → RoomSteps h m (send_replay_phase h p m)
  unfolding send_replay_phase
  phase-RoomSteps p m =
      trans (by_tell p.peer_id _ m)
        (trans (tell_all-RoomSteps p.peer_id p.frames _) (by_tell p.peer_id _ _))

  schedule-RoomSteps :
      (delay : ℕ) (payload : WakePayload) (m : Room)
      → RoomSteps h m (schedule_wake_payload h delay payload m)
  unfolding schedule_wake_payload
  schedule-RoomSteps delay payload m = elim (Option-cases (h.to_vec (payload_to_value payload))) [
    | inl e ↦ rw (e, schedule_wake_payload) here
    | inr (bytes, e) ↦ rw (e, schedule_wake_payload) (by_wake delay bytes m)
  ]

  rest-RoomSteps : (ps : List WakeReplayPhase) (m : Room) → RoomSteps h m (schedule_rest h ps m)
  rest-RoomSteps [] m = here
  rest-RoomSteps (p ∷ ps) m = schedule-RoomSteps 50 _ m

  plan-RoomSteps : (plan : WakePayload) (m : Room) → RoomSteps h m (wake h plan m)
  unfolding wake
  plan-RoomSteps (replay_stream []) m = here
  plan-RoomSteps (replay_stream (p ∷ ps)) m = trans (phase-RoomSteps p m) (rest-RoomSteps ps _)
  plan-RoomSteps (pending_permissions p frames) m = tell_all-RoomSteps p frames m

  pub wake-RoomSteps : (payload : Bytes) (m : Room) → RoomSteps h m (on_wake h payload m)
  unfolding on_wake
  wake-RoomSteps payload m =
      elim (Option-cases (and_then (h.from_slice payload) payload_of_value)) [
        | inl e ↦ rw (e, on_wake) here
        | inr (plan, e) ↦ rw (e, on_wake) (plan-RoomSteps plan m)
      ]

  permissions-RoomSteps :
      (p : String) (frames : List String) (m : Room)
      → RoomSteps h m (schedule_permissions h p frames m)
  permissions-RoomSteps p [] m = here
  permissions-RoomSteps p (f ∷ fs) m = schedule-RoomSteps 1 _ m

  pub attach-RoomSteps :
      (p : String) (a : AttachParams) (r : AttachResult) (m : Room)
      → RoomSteps h m (on_attach h p a r m).0
  unfolding on_attach
  attach-RoomSteps p a r m = trans (if_case (RoomSteps h m) _ (schedule-RoomSteps 1 _ m) here) (
      if_case (RoomSteps h _) (is_pending_only r.history_policy)
        (permissions-RoomSteps p (permission_frames h m.core) _) here)
