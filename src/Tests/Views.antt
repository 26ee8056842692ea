-- ===== src/Tests/Views.antt =====
-- The theorems on the views of a history, on a history of two turns.
use acp_mux.Core.New.{new_core}
use acp_mux.Rooms.{RoomsExtension, new_rooms}
use acp_mux.Core.{MuxCore}
use acp_mux.Rooms.Proofs.Views.Wakes.{payload_of_value-to_value}
use acp_mux.Rooms.Proofs.Views.Stream.{all_frames, replay_stream_phases-frames}
use acp_mux.Rooms.Joined.{in_order}
use acp_mux.Rooms.Views.Groups.{newest_turn_first_history}
use acp_mux.Rooms.Views.Phases.{
  WakePayload, payload_of_value, payload_to_value, replay_stream_phases,
  history_entries_to_frame_strings, replay_stream,
}
use acp_mux.Attach.{HistoryEntry}
use acp_mux.Base.{◌≡◌, refl, String, List, [], ◌∷◌, none, some, false, true}
use acp_mux.Tests.{host, options}

abbrev entry : String → HistoryEntry
entry method = record { method = method; params = none }

abbrev two_turns : List HistoryEntry
two_turns =
    entry "session/update"
    ∷ entry "rooms/turn_started"
    ∷ entry "session/update"
    ∷ entry "rooms/turn_complete"
    ∷ entry "rooms/turn_started"
    ∷ entry "session/update"
    ∷ []

-- A turn that is cancelled and settles later: what follows turn_cancelled comes first.
cancelled_turn :
    newest_turn_first_history (
      entry "rooms/turn_started"
      ∷ entry "rooms/turn_cancelled"
      ∷ entry "session/update"
      ∷ entry "rooms/turn_complete"
      ∷ [])
    ≡ entry "session/update"
      ∷ entry "rooms/turn_complete"
      ∷ entry "rooms/turn_started"
      ∷ entry "rooms/turn_cancelled"
      ∷ []
unfolding newest_turn_first_history
cancelled_turn = refl

replay_stream_phases-frames_example :
    let shown = in_order host "newest_turn_first" two_turns in
    all_frames (replay_stream_phases host "alice" "newest_turn_first" 0 7 shown)
    ≡ history_entries_to_frame_strings host shown
replay_stream_phases-frames_example =
    replay_stream_phases-frames host "alice" "newest_turn_first" 0 7 two_turns

abbrev plan : WakePayload
plan = replay_stream (
    record {
      peer_id = "alice";
      phase = "backfill";
      replay_order = "chronological";
      replay_generation = 0;
      replay_boundary_seq = 7;
      frames = "{}" ∷ "[]" ∷ [];
    }
    ∷ [])

payload_of_value-to_value_example : payload_of_value (payload_to_value plan) ≡ some plan
payload_of_value-to_value_example = payload_of_value-to_value plan

abbrev logged_core : MuxCore
logged_core = record (new_core host "mux" options) {
  replay_log = some (
      record { frame = 3 ∷ []; recorded_at = "t"; seq = 1; ext_tag = 0 }
      ∷ record { frame = 3 ∷ []; recorded_at = "t"; seq = 2; ext_tag = 5 }
      ∷ []);
}

abbrev fresh_room : RoomsExtension
fresh_room = new_rooms (record { meta_propagate = false; emit_segment_frames = true }) []
