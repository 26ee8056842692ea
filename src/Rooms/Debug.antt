-- ===== src/Rooms/Debug.antt =====
-- crates/rooms/src/extension/mod.rs: `debug_snapshot`, what the debug page shows of a room.
use acp_mux.Base.{ℕ, String, List, [], ◌∷◌, map_some}
use acp_mux.Json.{Value, Fields, str, arr, obj, end, field}
use acp_mux.Host.{Host}
use acp_mux.Extension.{Mux}
use acp_mux.Mux.Snapshot.{or_null, opt_str, count}
use acp_mux.Rooms.{RoomsExtension, ReplayResetSnapshot}
use acp_mux.Rooms.Frames.{formatted_turn, formatted_segment}
use acp_mux.Rooms.Joined.{segment_to_value}
use acp_mux.Attach.{items_of}
use acp_mux.Rooms.Views.{replay_update_counts_by_session}

unfoldable pub reset_to_value : ReplayResetSnapshot → Value
reset_to_value s = obj (
    field "loadedSessionId" (str s.loaded_session_id) (
      count "replayGeneration" s.replay_generation (
        count "droppedFrameCount" s.dropped_frame_count
          (count "retainedFrameCount" s.retained_frame_count end))))

unfoldable pub counts_to_fields : List (String × ℕ) → Fields
counts_to_fields [] = end
counts_to_fields ((session, n) ∷ cs) = count session n (counts_to_fields cs)

unfoldable pub debug_snapshot : Host → Mux RoomsExtension → Value
unfolding reset_to_value counts_to_fields
debug_snapshot h m =
    let r = m.ext in
    obj (
      field "activeRoomsTurnId"
        (or_null (map_some (λ n. str (formatted_turn n)) r.active_rooms_turn_id))
        (field "drivingSubscriber" (opt_str r.driving_subscriber_peer_id) (
          count "replayGeneration" r.replay_generation (
            field "lastReplayReset" (or_null (map_some reset_to_value r.last_replay_reset)) (
              field "replayLogUpdateFramesByAcpSessionId"
                (obj (counts_to_fields (replay_update_counts_by_session h r m.core)))
                (count "nextRoomsTurnId" r.next_rooms_turn_id (
                  field "segments" (arr (items_of segment_to_value r.segments)) (
                    field "activeSegmentId"
                      (or_null (map_some (λ n. str (formatted_segment n)) r.active_segment_id))
                      end))))))))
