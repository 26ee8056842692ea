-- ===== src/Rooms/Proofs/Registered.antt =====
-- crates/rooms/src/room/registry.rs: the rooms that a registry of rooms has spawned.
use acp_mux.Base.{ℕ, ◌≡◌, ◌≤◌, sym, subst, String, Bool, List, Option, some, get_elem?, length}
use acp_mux.Host.{Host}
use acp_mux.Policy.{ClientToolPolicy}
use acp_mux.Core.New.{ReplayTurns}
use acp_mux.Mux.Run.{Actor}
use acp_mux.Registry.{Task, MuxHandle, AgentCmd, with_extension_and_replay_store}
use acp_mux.Registry.Calls.{Move, after, fresh}
use acp_mux.Registry.Reached.{IsReached, Called, reached, task-IsReached}
use acp_mux.Rooms.{RoomsExtension, RoomsOptions, SessionListIndex}
use acp_mux.Rooms.Hooks.{rooms}
use acp_mux.Rooms.Queue.{pending_queue_prompt_count}
use acp_mux.Rooms.Registry.{RoomRegistry, new_full}
use acp_mux.Rooms.Steps.Queued.{IsOrdered}
use acp_mux.Rooms.Steps.Reached.{IsNumbered}
use acp_mux.Rooms.Proofs.Reached.{queue-IsOrdered, segments-IsNumbered}

module _ (h : Host) (cmd : Option AgentCmd) (policy : ReplayTurns) (ttl : ℕ) (meta_propagate : Bool)
    (tools : ClientToolPolicy) (emit_segment_frames : Bool) (store : Option String) where
  abbrev room_options : RoomsOptions
  room_options = record {
    meta_propagate = meta_propagate;
    emit_segment_frames = emit_segment_frames;
  }

  abbrev registry : RoomRegistry
  registry = new_full cmd policy ttl meta_propagate tools emit_segment_frames store

  module _ (ms : List (Move SessionListIndex)) (i : MuxHandle) (t : Task RoomsExtension)
      (spawned : get_elem? (after h (rooms h) ms (fresh registry)).world.tasks i ≡ some t) where
    abbrev room : RoomsExtension
    room = t.actor.mux.ext

    -- In every room of a registry the queue stays in order and within its bounds, and the segments stay
    -- numbered.
    pub room-IsOrdered :
        IsOrdered room.queued_prompts
        × (pending_queue_prompt_count room.queued_prompts ≤ 6)
        × (length room.queued_prompts ≤ 7)
    unfolding new_full with_extension_and_replay_store
    room-IsOrdered = started (task-IsReached h (rooms h) registry ms i t spawned)
      where
        started :
            IsReached h (rooms h) registry (Called ms) t
            → IsOrdered room.queued_prompts
              × (pending_queue_prompt_count room.queued_prompts ≤ 6)
              × (length room.queued_prompts ≤ 7)
        started (reached around o s es under by is) =
            subst
              (λ (a : Actor RoomsExtension).
                IsOrdered a.mux.ext.queued_prompts
                × (pending_queue_prompt_count a.mux.ext.queued_prompts ≤ 6)
                × (length a.mux.ext.queued_prompts ≤ 7))
              (sym is) (queue-IsOrdered h t.mux_id o room_options around.shared s es)

    pub room-IsNumbered : IsNumbered room
    unfolding new_full with_extension_and_replay_store
    room-IsNumbered = started (task-IsReached h (rooms h) registry ms i t spawned)
      where
        started : IsReached h (rooms h) registry (Called ms) t → IsNumbered room
        started (reached around o s es under by is) =
            subst (λ (a : Actor RoomsExtension). IsNumbered a.mux.ext) (sym is)
              (segments-IsNumbered h t.mux_id o room_options around.shared s es)
