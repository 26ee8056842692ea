-- ===== src/Rooms/Proofs/Reached.antt =====
-- What holds of a room whenever its actor has finished with a message.
use acp_mux.Base.{refl, ◌≤◌, String, List, length, inl, arith}
use acp_mux.Host.{Host}
use acp_mux.Core.{Subscriber}
use acp_mux.Core.New.{MuxOptions}
use acp_mux.Mux.Run.{Event, reach}
use acp_mux.Mux.State.OfRun.{reach_keeps}
use acp_mux.Rooms.{RoomsOptions, RoomsExtension, SessionListIndex, new_rooms}
use acp_mux.Rooms.Queue.{pending_queue_prompt_count}
use acp_mux.Rooms.Hooks.{rooms}
use acp_mux.Rooms.Steps.Queued.{IsBounded, IsOrdered, bounded-length}
use acp_mux.Rooms.Steps.Reached.{ext-KeepsState, step-IsBounded, step-IsNumbered, IsNumbered}

module _ (h : Host) (mux_id : String) (options : MuxOptions) (room_options : RoomsOptions)
    (index : SessionListIndex) (first : Subscriber) (es : List Event) where
  -- The state of the room after these events.
  abbrev pub reached : RoomsExtension
  reached = (reach h (rooms h) mux_id options (new_rooms room_options index) first es).mux.ext

  -- Whatever happens to a room, its queue holds at most six prompts queued by clients and at most one
  -- more, a hard steer, which then stands in front of them; so it never holds more than seven.
  pub queue-IsOrdered :
      IsOrdered reached.queued_prompts
      × (pending_queue_prompt_count reached.queued_prompts ≤ 6)
      × (length reached.queued_prompts ≤ 7)
  unfolding new_rooms pending_queue_prompt_count
  queue-IsOrdered =
      let b : IsBounded reached.queued_prompts =
        reach_keeps h (rooms h) (ext-KeepsState h (λ r. IsBounded r.queued_prompts) step-IsBounded)
          mux_id options (new_rooms room_options index) first es (tt, omega arith) in
      (b.0, b.1, bounded-length reached.queued_prompts b)

  -- Whatever happens to a room, its segments are numbered from 1 without gaps, the last one is open and
  -- active and the earlier ones are closed, unless the numbers of 64 bits are used up.
  pub segments-IsNumbered : IsNumbered reached
  unfolding new_rooms
  segments-IsNumbered =
      reach_keeps h (rooms h) (ext-KeepsState h IsNumbered step-IsNumbered) mux_id options
        (new_rooms room_options index) first es (inl (refl, refl))
