-- ===== src/Rooms/Steps/OfQueue.antt =====
-- The queue and the steering as steps of a room.
use acp_mux.Base.{
  ℕ, ◌≡◌, refl, String, true, false, List, [], ◌∷◌, Option, none, some, is_some, if_case,
  Bool-cases, inl, inr, Option-cases, nat_eq, not, leb, eq_text, wrapping_suc, ◌++◌, ◌≢◌, arith,
}
use acp_mux.Base.Map
use acp_mux.Json.{Value}
use acp_mux.Jsonrpc.{RequestId, IncomingRequest, IncomingResponse, ok, response}
use acp_mux.Jsonrpc.Write.{to_value}
use acp_mux.Host.{Host}
use acp_mux.Core.Send.{send_response, send_error_response, send_result_response}
use acp_mux.Extension.{over_core}
use acp_mux.Extension.Ctx.{submits, ctx_submit_prompt}
use acp_mux.Rooms.{QueuedPrompt, max_mux_queue_prompts}
use acp_mux.Rooms.Presence.{
  publish_session_list_metadata, note_driving_subscriber, set_driver, over_ext,
}
use acp_mux.Rooms.Turns.{emit_turn_started}
use acp_mux.Rooms.Control.{ActiveControlParams, control_params}
use acp_mux.Rooms.Refusal.{Refusal, passed_last, Checked-cases}
use acp_mux.Rooms.Queue.{
  Room, announce_item, announce_turn, submit_item, submit_first, submit_next_queued_prompt,
  accept_prompt, enqueue, check_queue_prompt, handle_rooms_queue_prompt_request, reject,
  pending_queue_prompt_count, check_unqueue, handle_rooms_unqueue_prompt_request,
  has_pending_hard_steer, begin_turn, set_queue, prompt_params, reply, announce_queued,
}
use acp_mux.Rooms.Steer.{
  handle_rooms_idle_steer_request, steer_hard, steer_active, steer, handle_rooms_steer_request,
  cancel_turn, cancel_active_turn, push_front, submit_frame, idle_prompt, steering_prompt,
}
use acp_mux.Mux.Session.{same_text}
use acp_mux.Rooms.Steps.{
  acts, queues, steers, pops, removes, RoomSteps, here, trans, one, by_notes, by_say, by_tell,
  by_ask, rolls,
}

-- What is accepted finds room.
pub accepted-left :
    (h : Host) (req : IncomingRequest) (m : Room) (control : ActiveControlParams)
    → check_queue_prompt h req m ≡ ok control
    → leb max_mux_queue_prompts (pending_queue_prompt_count m.ext.queued_prompts) ≡ false
unfolding check_queue_prompt
accepted-left h req m control e =
    passed_last (control_params false m.ext m.core req) _ _ _ control e

append-not_nil {ℓ} : {A : Type ℓ} (xs : List A) (x : A) → xs ++ x ∷ [] ≢ []
append-not_nil [] x e = ground arith
append-not_nil (y ∷ xs) x e = ground arith

module _ {h : Host} where
  pub publish-RoomSteps : (m : Room) → RoomSteps h m (publish_session_list_metadata m)
  unfolding publish_session_list_metadata
  publish-RoomSteps m = by_notes _ refl refl

  pub note_driving-RoomSteps : (p : String) (m : Room) → RoomSteps h m (note_driving_subscriber p m)
  unfolding note_driving_subscriber
  note_driving-RoomSteps p m =
      let P = RoomSteps h m in
      if_case P (not (is_some (Map.get p m.core.subscribers))) here (
        if_case P (same_text m.ext.driving_subscriber_peer_id p) here
          (trans (by_notes (set_driver (some p) m) refl refl) (publish-RoomSteps _)))

  pub reply-RoomSteps :
      (p : String) (r : IncomingResponse) (m : Room)
      → RoomSteps h m (over_core (send_response h p r) m)
  unfolding send_response
  reply-RoomSteps p r m = elim (Option-cases (h.to_vec (to_value (response r)))) [
    | inl e ↦ rw (e, send_response) here
    | inr (bytes, e) ↦ rw (e, send_response) (by_tell p bytes m)
  ]

  pub result-RoomSteps :
      (p : String) (id : RequestId) (v : Value) (m : Room) → RoomSteps h m (reply h p id v m)
  unfolding send_result_response
  result-RoomSteps p id v m = reply-RoomSteps p _ m

  pub reject-RoomSteps :
      (p : String) (id : RequestId) (e : Refusal) (m : Room) → RoomSteps h m (reject h p id e m)
  unfolding send_error_response
  reject-RoomSteps p id e m = reply-RoomSteps p _ m

  announce_item-RoomSteps :
      (id : Option String) (turn : ℕ) (m : Room) → RoomSteps h m (announce_item h id turn m)
  announce_item-RoomSteps none turn m = here
  announce_item-RoomSteps (some id) turn m = by_say _ m

  pub announce-RoomSteps :
      (n turn : ℕ) (p : QueuedPrompt) (m : Room) → RoomSteps h m (announce_turn h n turn p m)
  unfolding announce_turn emit_turn_started
  announce-RoomSteps n turn p m =
      trans (by_notes (begin_turn h n turn p m) refl refl)
        (trans (by_say _ _) (announce_item-RoomSteps p.queue_item_id turn _))

  pub submit_item-RoomSteps : (p : QueuedPrompt) (m : Room) → RoomSteps h m (submit_item h p m).0
  unfolding submit_item ctx_submit_prompt
  submit_item-RoomSteps p m =
      let noted = note_driving_subscriber p.peer_id m in
      let turn = noted.ext.next_rooms_turn_id in
      let counted = over_ext (λ r. record r { next_rooms_turn_id = wrapping_suc turn }) noted in
      let params = prompt_params p.session_id p.prompt_text in
      let r = ctx_submit_prompt h p.peer_id params false counted.core in
      let submitted : Room = record counted { core = r.0 } in
      let sent : RoomSteps h counted submitted =
        one (acts (submits p.peer_id params false refl) refl) in
      trans (note_driving-RoomSteps p.peer_id m) (
        trans (by_notes counted refl refl) (
          trans sent (
            if_case (λ (q : Room × Option ℕ). RoomSteps h submitted q.0) (nat_eq r.1 0) here
              (announce-RoomSteps r.1 turn p submitted))))

  first-RoomSteps :
      (ps : List QueuedPrompt) (m : Room)
      → m.ext.queued_prompts ≡ ps
      → RoomSteps h m (submit_first h ps m).0
  first-RoomSteps [] m e = here
  first-RoomSteps (p ∷ ps) m e =
      trans (one (pops p ps e refl)) (submit_item-RoomSteps p (set_queue ps m))

  pub submit_next-RoomSteps : (m : Room) → RoomSteps h m (submit_next_queued_prompt h m).0
  unfolding submit_next_queued_prompt
  submit_next-RoomSteps m = first-RoomSteps m.ext.queued_prompts m refl

  -- With no prompt in flight: the first prompt of the longer queue is submitted.
  roll-RoomSteps :
      (p : String) (control : ActiveControlParams) (m : Room) (qs : List QueuedPrompt)
      → leb max_mux_queue_prompts (pending_queue_prompt_count m.ext.queued_prompts) ≡ false
      → is_some m.core.prompt_in_flight ≡ false
      → (enqueue h p control m).ext.queued_prompts ≡ qs
      → RoomSteps h m (submit_first h qs (announce_queued h p control m)).0
  unfolding enqueue
  roll-RoomSteps p control m [] left idle e = absurd (append-not_nil m.ext.queued_prompts _ e)
  roll-RoomSteps p control m (q ∷ qs) left idle e =
      trans (one (rolls p control q qs left idle e refl)) (
        trans (by_say _ (set_queue qs (enqueue h p control m)))
          (submit_item-RoomSteps q (set_queue qs (announce_queued h p control m))))

  accept-RoomSteps :
      (p : String) (id : RequestId) (control : ActiveControlParams) (m : Room)
      → leb max_mux_queue_prompts (pending_queue_prompt_count m.ext.queued_prompts) ≡ false
      → RoomSteps h m (accept_prompt h p id control m)
  unfolding accept_prompt submit_next_queued_prompt enqueue
  accept-RoomSteps p id control m left = elim (Bool-cases (is_some m.core.prompt_in_flight)) [
    | inl busy ↦ rw busy (
        trans (one (queues p control left busy refl))
          (trans (by_say _ (enqueue h p control m)) (result-RoomSteps p id _ _)))
    | inr idle ↦
        rw idle (trans (roll-RoomSteps p control m _ left idle refl) (result-RoomSteps p id _ _))
  ]

  pub queue_prompt-RoomSteps :
      (p : String) (req : IncomingRequest) (m : Room)
      → RoomSteps h m (handle_rooms_queue_prompt_request h p req m)
  unfolding handle_rooms_queue_prompt_request
  queue_prompt-RoomSteps p req m = elim (Checked-cases (check_queue_prompt h req m)) [
    | inl (e, refused) ↦
        rw (refused, handle_rooms_queue_prompt_request) (reject-RoomSteps p req.id e m)
    | inr (control, accepted) ↦
        rw (accepted, handle_rooms_queue_prompt_request)
          (accept-RoomSteps p req.id control m (accepted-left h req m control accepted))
  ]

  pub unqueue-RoomSteps :
      (p : String) (req : IncomingRequest) (m : Room)
      → RoomSteps h m (handle_rooms_unqueue_prompt_request h p req m)
  unfolding handle_rooms_unqueue_prompt_request
  unqueue-RoomSteps p req m = elim (Checked-cases (check_unqueue h req m.ext.queued_prompts)) [
    | inl (e, refused) ↦
        rw (refused, handle_rooms_unqueue_prompt_request) (reject-RoomSteps p req.id e m)
    | inr (id, accepted) ↦
        rw (accepted, handle_rooms_unqueue_prompt_request)
          (trans (one (removes id refl)) (trans (by_say _ _) (result-RoomSteps p req.id _ _)))
  ]

  idle_steer-RoomSteps :
      (p : String) (id : RequestId) (control : ActiveControlParams) (m : Room)
      → RoomSteps h m (handle_rooms_idle_steer_request h p id control m)
  unfolding handle_rooms_idle_steer_request submit_next_queued_prompt
  idle_steer-RoomSteps p id control m =
      let said = submit_frame h "prompt" m.ext.next_rooms_turn_id p control.text m in
      let same : RoomSteps h said (set_queue said.ext.queued_prompts said) = by_notes _ refl refl in
      trans (by_say _ m) (
        trans same
          (trans (submit_item-RoomSteps (idle_prompt p control) _) (result-RoomSteps p id _ _)))

  steer_hard-RoomSteps :
      (p : String) (id : RequestId) (control : ActiveControlParams) (turn : ℕ) (session : String)
      (m : Room)
      → has_pending_hard_steer m.ext.queued_prompts ≡ false
      → is_some m.core.prompt_in_flight ≡ true
      → RoomSteps h m (steer_hard h p id control turn session m)
  unfolding steer_hard
  steer_hard-RoomSteps p id control turn session m none_waits busy =
      let item = steering_prompt p control turn m.ext.active_turn_prompt_text in
      trans (one (steers item turn refl none_waits busy refl)) (
        trans (by_say _ (push_front item m)) (
          trans (by_say _ (push_front item (submit_frame h "hard" turn p control.text m)))
            (trans (result-RoomSteps p id _ _) (by_ask _ _))))

  steer_active-RoomSteps :
      (turn : Option ℕ) (session : Option String) (p : String) (id : RequestId)
      (control : ActiveControlParams) (m : Room)
      → has_pending_hard_steer m.ext.queued_prompts ≡ false
      → is_some m.core.prompt_in_flight ≡ true
      → RoomSteps h m (steer_active h turn session p id control m)
  steer_active-RoomSteps none session p id control m none_waits busy = here
  steer_active-RoomSteps (some turn) none p id control m none_waits busy = reject-RoomSteps p id _ m
  steer_active-RoomSteps (some turn) (some session) p id control m none_waits busy =
      steer_hard-RoomSteps p id control turn session m none_waits busy

  steer-RoomSteps :
      (p : String) (id : RequestId) (control : ActiveControlParams) (m : Room)
      → RoomSteps h m (steer h p id control m)
  unfolding steer
  steer-RoomSteps p id control m = elim (Bool-cases (is_some m.core.prompt_in_flight)) [
    | inr idle ↦ rw (idle, steer) (idle_steer-RoomSteps p id control m)
    | inl busy ↦
        rw (busy, steer)
          (elim (Bool-cases (has_pending_hard_steer m.ext.queued_prompts)) [
            | inl waits ↦ rw waits (reject-RoomSteps p id _ m)
            | inr none_waits ↦
                rw none_waits (steer_active-RoomSteps _ _ p id control m none_waits busy)
          ])
  ]

  pub steer_request-RoomSteps :
      (p : String) (req : IncomingRequest) (m : Room)
      → RoomSteps h m (handle_rooms_steer_request h p req m)
  unfolding handle_rooms_steer_request
  steer_request-RoomSteps p req m = elim (Checked-cases (control_params false m.ext m.core req)) [
    | inl (e, refused) ↦ rw (refused, handle_rooms_steer_request) (reject-RoomSteps p req.id e m)
    | inr (control, accepted) ↦
        rw (accepted, handle_rooms_steer_request) (steer-RoomSteps p req.id control m)
  ]

  cancel_turn-RoomSteps :
      (turn : Option ℕ) (session : Option String) (p : String) (reason : Option String) (m : Room)
      → RoomSteps h m (cancel_turn h turn session p reason m).0
  cancel_turn-RoomSteps none session p reason m = here
  cancel_turn-RoomSteps (some turn) none p reason m = here
  cancel_turn-RoomSteps (some turn) (some session) p reason m = trans (by_say _ m) (by_ask _ _)

  pub cancel-RoomSteps :
      (p : String) (reason : Option String) (m : Room)
      → RoomSteps h m (cancel_active_turn h p reason m).0
  unfolding cancel_active_turn
  cancel-RoomSteps p reason m = cancel_turn-RoomSteps _ _ p reason m
