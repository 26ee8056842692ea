-- ===== src/Rooms.antt =====
-- crates/rooms/src/extension/mod.rs: the state of the Rooms extension.
pub mod Frames
pub mod Segments
pub mod Metadata
pub mod Presence
pub mod Turns
pub mod Refusal
pub mod Control
pub mod Queue
pub mod Steer
pub mod Views
pub mod Joined
pub mod Hooks
pub mod Debug
pub mod Registry
pub mod Server
pub mod Steps
pub mod Proofs
use acp_mux.Base.{ℕ, String, Bool, List, [], Option, none, ℤ, negsuc}

pub data EndReason : Type 0 where
  session_load acp_session_id_changed : EndReason

pub record RoomsOptions : Type 0 where
  pub meta_propagate : Bool
  pub emit_segment_frames : Bool

pub record RoomsRequestData : Type 0 where
  pub rooms_turn_id : Option ℕ
  pub queue_item_id : Option String
  pub decorate_session_list : Bool

pub data QueuedPromptKind : Type 0 where
  prompt queue : QueuedPromptKind
  hard_steer : ℕ → QueuedPromptKind

pub record QueuedPrompt : Type 0 where
  pub queue_item_id : Option String
  pub peer_id : String
  pub session_id : String
  pub prompt_text : String
  pub kind : QueuedPromptKind

pub record ReplayResetSnapshot : Type 0 where
  pub loaded_session_id : String
  pub replay_generation : ℕ
  pub dropped_frame_count : ℕ
  pub retained_frame_count : ℕ

pub record Segment : Type 0 where
  pub id : ℕ
  pub acp_session_id : Option String
  pub opened_at : String
  pub opened_replay_seq : ℕ
  pub closed_at : Option String
  pub closed_replay_seq : Option ℕ
  pub end_reason : Option EndReason

pub record SessionListRoomsMetadata : Type 0 where
  pub room_id : String
  pub subscriber_count : ℕ
  pub driving_subscriber : Option String

-- `SessionListMetadataIndex`: by ACP session id.
abbrev pub SessionListIndex : Type 0
SessionListIndex = List (String × SessionListRoomsMetadata)

-- The index of sessions is shared by the rooms of a server: the field is what it holds when a hook of
-- this room is called.
pub record RoomsExtension : Type 0 where
  pub options : RoomsOptions
  pub active_rooms_turn_id : Option ℕ
  pub active_turn_session_id : Option String
  pub active_turn_prompt_text : Option String
  pub next_rooms_turn_id : ℕ
  pub per_request : List (ℕ × RoomsRequestData)
  pub queued_prompts : List QueuedPrompt
  pub next_queue_item_id : ℕ
  pub active_segment_id : Option ℕ
  pub segments : List Segment
  pub next_segment_id : ℕ
  pub replay_generation : ℕ
  pub last_replay_reset : Option ReplayResetSnapshot
  pub driving_subscriber_peer_id : Option String
  pub session_list_index : SessionListIndex

-- `Segment::open`, with the time that the caller writes over its own.
abbrev pub open_segment : ℕ → Option String → String → ℕ → Segment
open_segment id session now seq = record {
  id = id;
  acp_session_id = session;
  opened_at = now;
  opened_replay_seq = seq;
  closed_at = none;
  closed_replay_seq = none;
  end_reason = none;
}

unfoldable pub new_rooms : RoomsOptions → SessionListIndex → RoomsExtension
new_rooms options index = record {
  options = options;
  active_rooms_turn_id = none;
  active_turn_session_id = none;
  active_turn_prompt_text = none;
  next_rooms_turn_id = 1;
  per_request = [];
  queued_prompts = [];
  next_queue_item_id = 1;
  active_segment_id = none;
  segments = [];
  next_segment_id = 1;
  replay_generation = 0;
  last_replay_reset = none;
  driving_subscriber_peer_id = none;
  session_list_index = index;
}

abbrev pub max_mux_queue_prompts : ℕ
max_mux_queue_prompts = 6

abbrev pub session_busy_code : ℤ
session_busy_code = negsuc 32000

abbrev pub no_active_turn_code : ℤ
no_active_turn_code = negsuc 32001

abbrev pub queue_full_code : ℤ
queue_full_code = negsuc 32002

abbrev pub queue_item_not_found_code : ℤ
queue_item_not_found_code = negsuc 32003

abbrev pub invalid_params_code : ℤ
invalid_params_code = negsuc 32601
