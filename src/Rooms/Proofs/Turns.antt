-- ===== src/Rooms/Proofs/Turns.antt =====
-- The prompts that wait in the queue of a room, crates/rooms/src/extension/queue.rs and mod.rs.
use acp_mux.Rooms.Steps.OfQueue.{announce-RoomSteps}
use acp_mux.Base.{
  eq_nat, ℕ, ◌≡◌, ◌≢◌, refl, ap, ◌∙◌, String, Bool, true, false, List, [], ◌∷◌, Option, is_some,
  ◌⊎◌, inl, inr, Bool-cases, if_case, nat_eq, wrapping_suc, or_else,
}
use acp_mux.Base.Map
use acp_mux.Json.{Value}
use acp_mux.Jsonrpc.{IncomingResponse}
use acp_mux.Host.{Host, Bytes, to_vec_or_empty}
use acp_mux.Core.{MuxCore, Subscriber}
use acp_mux.Core.New.{MuxOptions}
use acp_mux.Core.Send.{submit_prompt, enqueue_prompt}
use acp_mux.Extension.Ctx.{ctx_submit_prompt}
use acp_mux.Mux.Run.{Event, reach}
use acp_mux.Mux.State.OfRun.{reach_keeps}
use acp_mux.Rooms.{RoomsOptions, QueuedPrompt, SessionListIndex, new_rooms}
use acp_mux.Rooms.Queue.{
  Room, submit_first, submit_item, submit_next_queued_prompt, prompt_params, set_queue,
}
use acp_mux.Rooms.Presence.{note_driving_subscriber, over_ext}
use acp_mux.Rooms.Hooks.{rooms, on_prompt_settled, forget_turn, complete_turn, turn_of, item_of}
use acp_mux.Rooms.Steps.Flight.{IsFlying, IsBusy, step-IsBusy, CtxSteps-IsFlying}
use acp_mux.Rooms.Steps.Keeps.{of_room}
use acp_mux.Rooms.Steps.Reached.{rooms-KeepsState}

-- `serde_json::to_vec` of a value gives bytes, and some.
abbrev pub Encodes : Host → Type 0
Encodes h = (v : Value) → to_vec_or_empty h v ≢ []

module _ (h : Host) (encodes : Encodes h) where
  enqueue-IsFlying :
      (p : String) (d : Bool) (bytes : Bytes) (c : MuxCore)
      → bytes ≢ []
      → IsFlying (enqueue_prompt h p d bytes c).0
  unfolding enqueue_prompt
  enqueue-IsFlying p d [] c some_bytes = absurd (some_bytes refl)
  enqueue-IsFlying p d (b ∷ bytes) c some_bytes = refl

  -- A prompt that is submitted is in flight, or another one is.
  submit-IsFlying :
      (p : String) (v : Value) (d : Bool) (c : MuxCore) → IsFlying (submit_prompt h p v d c).0
  unfolding submit_prompt
  submit-IsFlying p v d c = elim (Bool-cases (is_some c.prompt_in_flight)) [
    | inl busy ↦ rw busy busy
    | inr idle ↦ rw idle (enqueue-IsFlying p d _ c (encodes _))
  ]

  submit_item-IsFlying : (p : QueuedPrompt) (m : Room) → IsFlying (submit_item h p m).0.core
  unfolding submit_item ctx_submit_prompt
  submit_item-IsFlying p m =
      let noted = note_driving_subscriber p.peer_id m in
      let turn = noted.ext.next_rooms_turn_id in
      let counted = over_ext (λ r. record r { next_rooms_turn_id = wrapping_suc turn }) noted in
      let params = prompt_params p.session_id p.prompt_text in
      let r = ctx_submit_prompt h p.peer_id params false counted.core in
      let flying : IsFlying r.0 = submit-IsFlying p.peer_id params false counted.core in
      if_case (λ (q : Room × Option ℕ). IsFlying q.0.core) (nat_eq r.1 0) flying
        (CtxSteps-IsFlying (of_room (announce-RoomSteps r.1 turn p (record counted { core = r.0 })))
          flying)

  first-IsBusy :
      (ps : List QueuedPrompt) (m : Room)
      → m.ext.queued_prompts ≡ ps
      → IsBusy (submit_first h ps m).0
  first-IsBusy [] m e = inr e
  first-IsBusy (p ∷ ps) m e = inl (submit_item-IsFlying p (set_queue ps m))

  settled-IsBusy : (m : Room) (n : ℕ) (r : IncomingResponse) → IsBusy (on_prompt_settled h m n r)
  unfolding on_prompt_settled submit_next_queued_prompt
  settled-IsBusy m n r =
      let d = Map.get n m.ext.per_request in
      let done =
        complete_turn h (or_else m.ext.active_rooms_turn_id (turn_of d)) (item_of d) r.result
          (forget_turn h n m) in
      first-IsBusy done.ext.queued_prompts done refl

  -- If every value has an encoding: whenever the actor has finished with a message, a prompt that waits
  -- in the queue of the room waits for a turn in flight. So no prompt is left waiting for nothing.
  pub no_prompt_stalls :
      (mux_id : String) (options : MuxOptions) (room_options : RoomsOptions)
      (index : SessionListIndex) (first : Subscriber) (es : List Event)
      → let m = (reach h (rooms h) mux_id options (new_rooms room_options index) first es).mux in
        (is_some m.core.prompt_in_flight ≡ true) ⊎ (m.ext.queued_prompts ≡ [])
  unfolding new_rooms
  no_prompt_stalls mux_id options room_options index first es =
      reach_keeps h (rooms h)
        (rooms-KeepsState h (λ m. Unit {0}) IsBusy (λ m n s w. tt) step-IsBusy busy_aside
          (λ m d e b. inl e) (λ m d b. tt) (λ m d w. tt) (λ m n r w. settled-IsBusy m n r))
        mux_id options (new_rooms room_options index) first es (inr refl)
    where
      busy_aside :
          (m : Room) (d : MuxCore)
          → d.prompt_in_flight ≡ m.core.prompt_in_flight
          → IsBusy m
          → IsBusy (record m { core = d })
      busy_aside m d e (inl f) = inl (ap is_some e ∙ f)
      busy_aside m d e (inr q) = inr q
