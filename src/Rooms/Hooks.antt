-- ===== src/Rooms/Hooks.antt =====
-- crates/rooms/src/extension/mod.rs: the hooks of the Rooms extension.
mod OfSubscriber
mod OfAgent
mod OfRoom
unfoldable pub use OfSubscriber.*
unfoldable pub use OfAgent.*
unfoldable pub use OfRoom.*
use acp_mux.Base.{
  ℕ, String, Bool, true, false, ◌&&◌, List, [], ◌∷◌, Option, none, some, is_some, and_then, or_else,
  map_some, if◌then◌else◌, ◌==◌, eq_text, eq_nat, length, nat_eq, filter_map, retain, wrapping_suc,
}
use acp_mux.Json.{Value, obj, end, get_field, str_param}
use acp_mux.Jsonrpc.{RequestId, IncomingRequest, IncomingNotification, IncomingResponse}
use acp_mux.Jsonrpc.Write.{id_to_value, error_to_value}
use acp_mux.Host.{Host, Bytes}
use acp_mux.Core.{MuxCore, Subscriber, ReplayEntry}
use acp_mux.Extension.{
  MuxExtension, Disposition, NotifyDisposition, ResolvedBy, peer, agent_cancelled, turn_ended,
}
use acp_mux.Rooms.{
  RoomsExtension, RoomsRequestData, QueuedPrompt, Segment, EndReason, session_load,
  acp_session_id_changed, session_busy_code, no_active_turn_code,
}
use acp_mux.Rooms.Frames.{
  formatted_turn, text_field, session_busy, agent_request_opened, agent_request_resolved,
  peer_joined, peer_left, session_context, queue_item_orphaned, queue_item_completed,
}
use acp_mux.Rooms.Metadata.{inject_request_trace_metadata}
use acp_mux.Rooms.Presence.{
  over_ext, note_driving_subscriber, publish_session_list_metadata, clear_session_list_metadata,
  decorate_session_list_response, set_driver,
}
use acp_mux.Rooms.Turns.{
  say, emit_turn_started, emit_turn_complete, peer_name_of, role_of, field_or_null,
}
use acp_mux.Rooms.Segments.{rotate_segment, active_segment}
use acp_mux.Rooms.Control.{text_from_text_only_prompt}
use acp_mux.Rooms.Queue.{
  Room, submit_next_queued_prompt, reply, pending_peer, handle_rooms_queue_prompt_request,
  handle_rooms_unqueue_prompt_request,
}
use acp_mux.Rooms.Steer.{handle_rooms_steer_request, cancel_active_turn}
use acp_mux.Rooms.Views.{
  replay_retention_counts, should_include_replay_entry, inject_replay_metadata,
}
use acp_mux.Rooms.Views.Phases.{tell, on_wake}
use acp_mux.Rooms.Joined.{on_attach}
use acp_mux.Mux.Session.{same_text}

module _ (h : Host) where
  -- `impl MuxExtension for RoomsExtension`.
  abbrev pub rooms : MuxExtension RoomsExtension
  rooms = record {
    on_subscriber_request = on_subscriber_request h;
    on_request_translating = on_request_translating h;
    on_request_forwarded = on_request_forwarded h;
    on_subscriber_notification = on_subscriber_notification h;
    on_agent_notification = λ m n. m;
    on_agent_request = on_agent_request h;
    on_agent_response = on_agent_response h;
    on_prompt_settled = on_prompt_settled h;
    on_agent_request_resolved = on_agent_request_resolved h;
    on_canonical_session_id = on_canonical_session_id h;
    on_subscriber_attaching = on_subscriber_attaching h;
    on_subscriber_attached = on_subscriber_attached h;
    on_subscriber_detached = on_subscriber_detached h;
    on_attach = λ m p a r. on_attach h p a r m;
    replay_frame = replay_frame h;
    on_wake = λ m payload. on_wake h payload m;
  }
