-- ===== src/Rooms/Segments.antt =====
-- crates/rooms/src/extension/segments.rs: the segments of a room's transcript.
pub mod Lineage
pub mod Tags
use acp_mux.Base.{
  ℕ, ◌-◌, String, Bool, List, [], ◌∷◌, ◌++◌, map, Option, none, some, find, last, unwrap_or,
  map_some, and_then, if◌then◌else◌, ◌==◌, eq_nat, saturating_suc,
}
use acp_mux.Host.{Host, Bytes}
use acp_mux.Core.{MuxCore, ReplayEntry}
use acp_mux.Core.Send.{broadcast}
use acp_mux.Extension.{Mux, over_core}
use acp_mux.Extension.Ctx.{set_replay_tag}
use acp_mux.Rooms.{EndReason, QueuedPrompt, Segment, RoomsExtension, open_segment}
use acp_mux.Rooms.Frames.{segment_started, segment_ended}

-- One above the number of the last entry of the log, or 1.
unfoldable pub next_replay_seq : MuxCore → ℕ
next_replay_seq c =
    unwrap_or
      (map_some (λ (e : ReplayEntry). saturating_suc e.seq) (last (unwrap_or c.replay_log []))) 1

-- `iter_mut().find`: the first segment with this id is changed.
unfoldable pub update_segment : ℕ → (Segment → Segment) → List Segment → List Segment
update_segment id f [] = []
update_segment id f (s ∷ ss) =
    let rest = update_segment id f ss in if s.id == id then f s ∷ ss else s ∷ rest

abbrev pub end_segment : String → EndReason → Segment → Segment
end_segment now reason s = record s { closed_at = some now; end_reason = some reason }

abbrev pub end_replay : ℕ → Segment → Segment
end_replay seq s = record s { closed_replay_seq = some seq }

-- A waiting prompt goes to the new session.
abbrev pub move_prompt : Option String → QueuedPrompt → QueuedPrompt
move_prompt none item = item
move_prompt (some session) item = record item { session_id = session }

unfoldable pub active_segment : RoomsExtension → Option Segment
active_segment r = and_then r.active_segment_id λ id. find (λ (s : Segment). s.id == id) r.segments

module _ (h : Host) where
  abbrev pub announce : Bytes → Mux RoomsExtension → Mux RoomsExtension
  announce bytes m =
      if m.ext.options.emit_segment_frames then over_core (broadcast h bytes) m else m

  -- The new segment is the last one, the active one, and the tag of the frames to come.
  unfoldable pub add_segment : String → Option String → ℕ → Mux RoomsExtension → Mux RoomsExtension
  add_segment now session id m = announce (segment_started h m.core.mux_id id session now) (record {
    core = set_replay_tag id m.core;
    ext = record m.ext {
      segments = m.ext.segments ++ open_segment id session now (next_replay_seq m.core) ∷ [];
      active_segment_id = some id;
    };
  })

  abbrev pub say_ended : String → EndReason → ℕ → ℕ → Mux RoomsExtension → Mux RoomsExtension
  say_ended now reason current new_id m =
      announce (segment_ended h m.core.mux_id current now reason (some new_id)) (record {
        core = set_replay_tag current m.core;
        ext = record m.ext {
          segments = update_segment current (end_segment now reason) m.ext.segments;
        };
      })

  -- The end of the current segment; its last frame is the one that says so.
  unfoldable pub close_segment :
      String → Option String → EndReason → ℕ → ℕ → Mux RoomsExtension → Mux RoomsExtension
  close_segment now session reason current new_id m =
      let ended = say_ended now reason current new_id m in
      record ended {
        ext = record ended.ext {
          segments =
              update_segment current (end_replay (next_replay_seq ended.core - 1))
                ended.ext.segments;
          queued_prompts = map (move_prompt session) ended.ext.queued_prompts;
        };
      }

  abbrev pub take_segment_id : Mux RoomsExtension → Mux RoomsExtension
  take_segment_id m = record m {
    ext = record m.ext { next_segment_id = saturating_suc m.ext.next_segment_id };
  }

  unfoldable pub rotate_from :
      String → Option String → EndReason → ℕ → Option ℕ → Mux RoomsExtension → Mux RoomsExtension
  rotate_from now session reason id none m = add_segment now session id m
  rotate_from now session reason id (some current) m =
      add_segment now session id (close_segment now session reason current id m)

  unfoldable pub rotate_segment :
      String → Option String → EndReason → Mux RoomsExtension → Mux RoomsExtension
  unfolding rotate_from
  rotate_segment now session reason m =
      rotate_from now session reason m.ext.next_segment_id m.ext.active_segment_id
        (take_segment_id m)
