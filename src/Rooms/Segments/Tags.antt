-- ===== src/Rooms/Segments/Tags.antt =====
-- The two frames of a rotation in the transcript.
use acp_mux.Base.{ℕ, ◌≡◌, refl, String, true, List, [], ◌∷◌, ◌++◌, Option, some, saturating_suc}
use acp_mux.Host.{Host}
use acp_mux.Core.{ReplayEntry}
use acp_mux.Core.Send.{broadcast, record_frame}
use acp_mux.Extension.{Mux}
use acp_mux.Mux.Steps.OfLog.{entry_for}
use acp_mux.Rooms.{EndReason, RoomsExtension}
use acp_mux.Rooms.Frames.{segment_started, segment_ended}
use acp_mux.Rooms.Segments.{rotate_segment, add_segment, close_segment}

module _ (h : Host) where
  -- When a segment follows another, and the room announces segments and keeps a log, two frames are
  -- recorded: the end of the old segment under the old segment's tag, then the start of the new one
  -- under the new tag, which stays.
  pub rotate_segment-log :
      (now : String) (session : Option String) (reason : EndReason) (m : Mux RoomsExtension)
      (current : ℕ) (log : List ReplayEntry)
      → m.ext.active_segment_id ≡ some current
      → m.ext.options.emit_segment_frames ≡ true
      → m.core.replay_log ≡ some log
      → let id = m.ext.next_segment_id in
        let seq = m.core.next_replay_seq in
        let ended = segment_ended h m.core.mux_id current now reason (some id) in
        let started = segment_started h m.core.mux_id id session now in
        let c = (rotate_segment h now session reason m).core in
        (c.replay_log
          ≡ some (
              (log ++ entry_for h current ended seq ∷ [])
              ++ entry_for h id started (saturating_suc seq) ∷ []))
        × (c.replay_tag ≡ id)
  unfolding rotate_segment add_segment close_segment broadcast record_frame
  rotate_segment-log now session reason m current log active emits logged =
      rw (active, emits, logged, rotate_segment) (refl, refl)
