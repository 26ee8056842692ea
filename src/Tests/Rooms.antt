-- ===== src/Tests/Rooms.antt =====
-- The theorems on segments, in a room whose second session begins.
use acp_mux.Base.{◌≡◌, refl, ◌++◌, ◌∷◌, [], some, true, arith, saturating_suc}
use acp_mux.Core.New.{new_core, replay_state}
use acp_mux.Extension.{Mux}
use acp_mux.Mux.Steps.OfLog.{entry_for}
use acp_mux.Rooms.{RoomsExtension, new_rooms, open_segment, session_load}
use acp_mux.Rooms.Frames.{segment_started, segment_ended}
use acp_mux.Rooms.Segments.{rotate_segment}
use acp_mux.Rooms.Segments.Lineage.{IsSegmented, rotate_segment-IsSegmented}
use acp_mux.Rooms.Segments.Tags.{rotate_segment-log}
use acp_mux.Tests.{host, options}

abbrev one_segment : RoomsExtension
one_segment = record (new_rooms (record { meta_propagate = true; emit_segment_frames = true }) []) {
  active_segment_id = some 1;
  segments = open_segment 1 (some "s1") "t1" 1 ∷ [];
  next_segment_id = 2;
}

abbrev room : Mux RoomsExtension
room = record { core = new_core host "mux" options; ext = one_segment }

one_segment-IsSegmented : IsSegmented one_segment
unfolding new_rooms
one_segment-IsSegmented = ((refl, refl, refl, refl), refl)

rotate_segment-IsSegmented_example :
    IsSegmented (rotate_segment host "t2" (some "s2") session_load room).ext
rotate_segment-IsSegmented_example =
    rotate_segment-IsSegmented host "t2" (some "s2") session_load room one_segment-IsSegmented
      (omega arith)

rotate_segment-log_example :
    let seq = room.core.next_replay_seq in
    let ended = segment_ended host room.core.mux_id 1 "t2" session_load (some 2) in
    let started = segment_started host room.core.mux_id 2 (some "s2") "t2" in
    let c = (rotate_segment host "t2" (some "s2") session_load room).core in
    (c.replay_log
      ≡ some (
          ([] ++ entry_for host 1 ended seq ∷ [])
          ++ entry_for host 2 started (saturating_suc seq) ∷ []))
    × (c.replay_tag ≡ 2)
unfolding new_core new_rooms replay_state
rotate_segment-log_example =
    rotate_segment-log host "t2" (some "s2") session_load room 1 [] refl refl refl
