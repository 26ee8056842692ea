-- ===== src/Mux/Snapshot.antt =====
-- crates/acp-mux/src/mux/actor.rs: `build_snapshot`, what the debug page shows of a mux, and its JSON by
-- the derived serialiser.
use acp_mux.Base.{
  ℕ, String, Bool, false, List, Option, none, some, length, is_some, and_then, map_some, map,
  filter_map, unwrap_or,
}
use acp_mux.Json.{Value, Fields, bool, num, str, arr, obj, end, field, pos_int, get_field, as_str}
use acp_mux.Jsonrpc.{RequestId}
use acp_mux.Attach.{items_of}
use acp_mux.Core.{Subscriber, AgentReqState, in_flight, consumed, ReplayEntry}
use acp_mux.Extension.{Mux}

pub record SubscriberSnapshot : Type 0 where
  pub peer_id : String
  pub peer_name : Option String
  pub role : Option String

pub record MuxSnapshot : Type 0 where
  pub mux_id : String
  pub agent_cwd : String
  pub subscribers : List SubscriberSnapshot
  pub pending_request_count : ℕ
  pub initialize_cached : Bool
  pub cached_session_id : Option String
  pub canonical_session_id : Option String
  pub prompt_in_flight : Option ℕ
  pub subprocess_dead : Bool
  pub ttl_pending : Bool
  pub replay_log_len : Option ℕ
  pub next_mux_id : ℕ
  pub pending_agent_request_count : ℕ
  pub pending_permission_count : ℕ
  pub extra : Fields

abbrev pub subscriber_snapshot : String × Subscriber → SubscriberSnapshot
subscriber_snapshot (key, s) = record {
  peer_id = s.peer_id;
  peer_name = s.peer_name;
  role = s.role;
}

abbrev pub waiting_request : RequestId × AgentReqState → Option RequestId
waiting_request (id, in_flight) = some id
waiting_request (id, consumed) = none

abbrev pub object_or_empty : Value → Fields
object_or_empty (obj fs) = fs
object_or_empty _ = end

-- `debug_snapshot` is the extension's.
unfoldable pub build_snapshot : {E : Type 0} → (Mux E → Value) → Bool → Mux E → MuxSnapshot
build_snapshot debug_snapshot ttl_pending m = record {
  mux_id = m.core.mux_id;
  agent_cwd = m.core.agent_cwd;
  subscribers = map subscriber_snapshot m.core.subscribers;
  pending_request_count = length m.core.pending;
  initialize_cached = is_some m.core.initialize_cache;
  cached_session_id =
      and_then m.core.session_new_cache (λ v. and_then (get_field v "sessionId") as_str);
  canonical_session_id = m.core.canonical_session_id;
  prompt_in_flight = m.core.prompt_in_flight;
  subprocess_dead = false;
  ttl_pending = ttl_pending;
  replay_log_len = map_some (λ (log : List ReplayEntry). length log) m.core.replay_log;
  next_mux_id = m.core.next_mux_id;
  pending_agent_request_count = length (filter_map waiting_request m.core.agent_pending);
  pending_permission_count = length m.core.pending_permissions;
  extra = object_or_empty (debug_snapshot m);
}

-- `json!` of an option.
abbrev pub or_null : Option Value → Value
or_null v = unwrap_or v Value.null

abbrev pub opt_str : Option String → Value
opt_str s = or_null (map_some str s)

abbrev pub opt_num : Option ℕ → Value
opt_num n = or_null (map_some (λ k. num (pos_int k)) n)

abbrev pub count : String → ℕ → Fields → Fields
count k n = field k (num (pos_int n))

unfoldable pub subscriber_to_value : SubscriberSnapshot → Value
subscriber_to_value s = obj (
    field "peerId" (str s.peer_id)
      (field "peerName" (opt_str s.peer_name) (field "role" (opt_str s.role) end)))

-- The fields of the extension are flattened behind those of the core.
unfoldable pub snapshot_to_value : MuxSnapshot → Value
unfolding subscriber_to_value
snapshot_to_value s = obj (
    field "muxId" (str s.mux_id) (
      field "agentCwd" (str s.agent_cwd) (
        field "subscribers" (arr (items_of subscriber_to_value s.subscribers)) (
          count "pendingRequestCount" s.pending_request_count (
            field "initializeCached" (bool s.initialize_cached) (
              field "cachedSessionId" (opt_str s.cached_session_id) (
                field "canonicalSessionId" (opt_str s.canonical_session_id) (
                  field "promptInFlight" (opt_num s.prompt_in_flight) (
                    field "subprocessDead" (bool s.subprocess_dead) (
                      field "ttlPending" (bool s.ttl_pending) (
                        field "replayLogLen" (opt_num s.replay_log_len) (
                          count "nextMuxId" s.next_mux_id (
                            count "pendingAgentRequestCount" s.pending_agent_request_count (
                              count "pendingPermissionCount" s.pending_permission_count
                                s.extra))))))))))))))
