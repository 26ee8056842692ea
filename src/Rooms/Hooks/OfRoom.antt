-- ===== src/Rooms/Hooks/OfRoom.antt =====
-- crates/rooms/src/extension/mod.rs: the hooks on what changes in the room: its session and its subscribers.
use acp_mux.Base.{
  String, Bool, List, [], ◌∷◌, Option, none, some, and_then, if◌then◌else◌, ◌==◌, eq_text, eq_nat,
  length, nat_eq, filter_map, retain, wrapping_suc,
}
use acp_mux.Host.{Host, Bytes}
use acp_mux.Core.{Subscriber, ReplayEntry}
use acp_mux.Rooms.{
  RoomsExtension, QueuedPrompt, Segment, EndReason, session_load, acp_session_id_changed,
}
use acp_mux.Rooms.Frames.{peer_joined, peer_left, session_context, queue_item_orphaned}
use acp_mux.Rooms.Presence.{
  over_ext, publish_session_list_metadata, clear_session_list_metadata, set_driver,
}
use acp_mux.Rooms.Turns.{say}
use acp_mux.Rooms.Segments.{rotate_segment, active_segment}
use acp_mux.Rooms.Queue.{Room}
use acp_mux.Rooms.Views.{
  replay_retention_counts, should_include_replay_entry, inject_replay_metadata,
}
use acp_mux.Rooms.Views.Phases.{tell}
use acp_mux.Mux.Session.{same_text}

-- The ids of the items of this peer that wait.
unfoldable pub orphaned_ids : String → List QueuedPrompt → List String
orphaned_ids p items =
    filter_map (λ (i : QueuedPrompt). i.queue_item_id)
      (retain (λ (i : QueuedPrompt). i.peer_id == p) items)

module _ (h : Host) where
  abbrev pub segment_session : RoomsExtension → Option String
  segment_session r = and_then (active_segment r) (λ (s : Segment). s.acp_session_id)

  abbrev pub end_reason : Bool → EndReason
  end_reason via_load = if via_load then session_load else acp_session_id_changed

  -- A load starts a new generation of the replay.
  unfoldable pub reset_replay : String → Room → Room
  reset_replay session m =
      let generation = wrapping_suc m.ext.replay_generation in
      let counted = over_ext (λ r. record r { replay_generation = generation }) m in
      let counts = replay_retention_counts h counted.ext counted.core in
      over_ext
        (λ r. record r {
          last_replay_reset = some (record {
            loaded_session_id = session;
            replay_generation = generation;
            dropped_frame_count = counts.0;
            retained_frame_count = counts.1;
          });
        })
        counted

  abbrev pub follow_segment : String → Bool → Room → Room
  follow_segment session via_load m =
      if same_text (segment_session m.ext) session
      then m
      else rotate_segment h (h.rotated_at m.ext.next_segment_id) (some session)
          (end_reason via_load) m

  unfoldable pub on_canonical_session_id : Room → Option String → String → Bool → Room
  unfolding reset_replay
  on_canonical_session_id m old session via_load =
      let followed = follow_segment session via_load m in
      publish_session_list_metadata (if via_load then reset_replay session followed else followed)

  unfoldable pub on_subscriber_attaching : Room → Subscriber → Room
  on_subscriber_attaching m s = say h (peer_joined h m.core.mux_id s.peer_id s.peer_name s.role) m

  unfoldable pub on_subscriber_attached : Room → String → Room
  on_subscriber_attached m p =
      publish_session_list_metadata (tell h p (session_context h m.core.mux_id m.core.agent_cwd) m)

  unfoldable pub say_orphaned : String → List String → Room → Room
  say_orphaned p [] m = m
  say_orphaned p (id ∷ ids) m =
      say_orphaned p ids (say h (queue_item_orphaned h m.core.mux_id id p) m)

  abbrev pub drop_driver : String → Room → Room
  drop_driver p m = if same_text m.ext.driving_subscriber_peer_id p then set_driver none m else m

  unfoldable pub on_subscriber_detached : Room → String → Room
  unfolding say_orphaned
  on_subscriber_detached m p =
      let told =
        say_orphaned p (orphaned_ids p m.ext.queued_prompts)
          (say h (peer_left h m.core.mux_id p) m) in
      let left = drop_driver p told in
      if nat_eq (length left.core.subscribers) 0
      then clear_session_list_metadata left
      else publish_session_list_metadata left

  unfoldable pub replay_frame : Room → ReplayEntry → Room × Option Bytes
  replay_frame m e = (
    m,
    if should_include_replay_entry h m.ext m.core e
        then some (inject_replay_metadata h e.frame e.recorded_at e.seq)
        else none,
  )
