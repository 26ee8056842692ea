-- ===== src/Core.antt =====
-- crates/acp-mux/src/mux/actor.rs and subscriber.rs: the state of one mux.
pub mod Send
pub mod New
use acp_mux.Base.{ℕ, String, Bool, true, false, List, [], ◌∷◌, ◌++◌, Option, none, some}
use acp_mux.Json.{Value}
use acp_mux.Jsonrpc.{RequestId}
use acp_mux.Host.{Bytes}
use acp_mux.Policy.{ClientToolPolicy}

pub data OutMsg : Type 0 where
  frame : Bytes → OutMsg
  close : ℕ → String → OutMsg

-- The sending half of a subscriber's unbounded channel: whether the receiver is gone, and what was
-- accepted, oldest first.
pub record Outbound : Type 0 where
  pub closed : Bool
  pub sent : List OutMsg

pub record Subscriber : Type 0 where
  pub peer_id : String
  pub peer_name : Option String
  pub role : Option String
  pub suppress_legacy_replay : Bool
  pub outbound : Outbound

pub record ReplayEntry : Type 0 where
  pub frame : Bytes
  pub recorded_at : String
  pub seq : ℕ
  pub ext_tag : ℕ

pub data HandshakeKind : Type 0 where
  initialize session_new : HandshakeKind
  session_load : String → HandshakeKind

pub record PendingRequest : Type 0 where
  pub peer_id : String
  pub original_id : RequestId
  pub handshake : Option HandshakeKind
  pub deliver_response : Bool

pub data AgentReqState : Type 0 where
  in_flight consumed : AgentReqState

-- One persisted broadcast frame (crates/acp-mux/src/replay_store.rs).
pub record PersistedFrame : Type 0 where
  pub v : ℕ
  pub seq : ℕ
  pub segment_id : ℕ
  pub recorded_at : String
  pub frame : Value

-- The open store of a mux: the records that its file holds, oldest first.
abbrev pub RoomReplayStore : Type 0
RoomReplayStore = List PersistedFrame

-- `wakes` are the messages to itself that the mux has scheduled: a delay and a payload.
pub record MuxCore : Type 0 where
  pub mux_id : String
  pub agent_cwd : String
  pub subscribers : List (String × Subscriber)
  pub next_mux_id : ℕ
  pub pending : List (ℕ × PendingRequest)
  pub initialize_cache : Option Value
  pub session_new_cache : Option Value
  pub canonical_session_id : Option String
  pub replay_log : Option (List ReplayEntry)
  pub replay_store : Option RoomReplayStore
  pub next_replay_seq : ℕ
  pub replay_tag : ℕ
  pub prompt_in_flight : Option ℕ
  pub client_tool_policy : ClientToolPolicy
  pub agent_pending : List (RequestId × AgentReqState)
  pub pending_permissions : List (RequestId × Bytes)
  pub agent_outbox : List Bytes
  pub wakes : List (ℕ × Bytes)
