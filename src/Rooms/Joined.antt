-- ===== src/Rooms/Joined.antt =====
-- crates/rooms/src/extension/mod.rs: `on_attach`, which adds the room's snapshot to the result of
-- `session/attach` and shapes its history.
use acp_mux.Base.{
  ℕ, String, Bool, true, false, List, [], ◌∷◌, Option, none, some, unwrap_or, and_then, map_some,
  if◌then◌else◌, ◌==◌, eq_text, eq_nat, find, last, filter_map,
}
use acp_mux.Json.{Value, Fields, num, pos_int, obj, arr, str, end, field, insert_key, get_field}
use acp_mux.Jsonrpc.{RequestId}
use acp_mux.Jsonrpc.Write.{id_to_value, opt_field}
use acp_mux.Attach.{
  HistoryPolicy, AttachParams, AttachResult, ConnectedClient, HistoryEntry, client_to_value,
  items_of,
}
use acp_mux.Host.{Host, Bytes}
use acp_mux.Core.{MuxCore, ReplayEntry}
use acp_mux.Extension.{Mux}
use acp_mux.Rooms.{
  RoomsExtension, Segment, QueuedPrompt, QueuedPromptKind, prompt, queue, hard_steer,
}
use acp_mux.Rooms.Frames.{
  formatted_turn, formatted_segment, text_field, number_field, opt_text, end_reason_name,
}
use acp_mux.Mux.Snapshot.{or_null}
use acp_mux.Rooms.Turns.{peer_name_of}
use acp_mux.Rooms.Queue.{pending_peer}
use acp_mux.Rooms.Views.{replay_entries, param_of, replay_history, attach_meta_str}
use acp_mux.Rooms.Views.Groups.{newest_turn_first_history}
use acp_mux.Rooms.Views.Phases.{
  replay_stream, pending_permissions, replay_stream_phases, schedule_wake_payload,
}

unfoldable pub segment_to_value : Segment → Value
segment_to_value s = obj (
    text_field "id" (formatted_segment s.id) (
      opt_text "acpSessionId" s.acp_session_id (
        text_field "openedAt" s.opened_at (
          number_field "openedReplaySeq" s.opened_replay_seq (
            opt_text "closedAt" s.closed_at (
              opt_field "closedReplaySeq" (map_some (λ n. num (pos_int n)) s.closed_replay_seq) (
                opt_field "endReason" (map_some (λ e. str (end_reason_name e)) s.end_reason)
                  end)))))))

abbrev pub kind_name : QueuedPromptKind → String
kind_name prompt = "prompt"
kind_name queue = "queue"
kind_name (hard_steer turn) = "hard_steer"

unfoldable pub queued_to_value : QueuedPrompt → Value
queued_to_value p = obj (
    field "queueItemId" (or_null (map_some str p.queue_item_id)) (
      text_field "peerId" p.peer_id
        (text_field "kind" (kind_name p.kind) (text_field "status" "queued" end))))

-- `value.pointer("/params/toolCall/title")`.
abbrev pub tool_title : Value → Option Value
tool_title v = and_then (param_of v "toolCall") (λ t. get_field t "title")

abbrev pub permission_to_value : RequestId → Value → Value
permission_to_value id v = obj (
    field "requestId" (id_to_value id)
      (field "toolName" (or_null (tool_title v)) (field "summary" (or_null (tool_title v)) end)))

abbrev pub self_peer : MuxCore → String → List ConnectedClient → ConnectedClient
self_peer c peer clients =
    unwrap_or (find (λ (k : ConnectedClient). k.client_id == peer) clients)
      (record { client_id = peer; name = peer_name_of c peer })

-- The active turn with the peer that waits for the prompt in flight.
unfoldable pub active_turn_value : RoomsExtension → MuxCore → Option Value
active_turn_value r c = and_then r.active_rooms_turn_id λ turn. and_then c.prompt_in_flight λ n.
    map_some
      (λ peer. obj (text_field "roomsTurnId" (formatted_turn turn) (text_field "peerId" peer end)))
      (pending_peer c n)

-- The number of the last entry of the log, or 0.
unfoldable pub replay_boundary_seq : MuxCore → ℕ
replay_boundary_seq c =
    unwrap_or (map_some (λ (e : ReplayEntry). e.seq) (last (replay_entries c))) 0

-- A stream only where there is a history.
abbrev pub applied_delivery : String → HistoryPolicy → String
applied_delivery requested HistoryPolicy.none = "response"
applied_delivery requested policy = if requested == "stream" then "stream" else "response"

abbrev pub is_pending_only : HistoryPolicy → Bool
is_pending_only HistoryPolicy.pending_only = true
is_pending_only policy = false

module _ (h : Host) where
  unfoldable pub pending_permission_values : MuxCore → List Value
  pending_permission_values c =
      filter_map (λ (p : RequestId × Bytes). map_some (permission_to_value p.0) (h.from_slice p.1))
        c.pending_permissions

  unfoldable pub attach_snapshot : RoomsExtension → MuxCore → String → List ConnectedClient → Fields
  attach_snapshot r c peer clients =
      field "connectedClients" (arr (items_of client_to_value clients)) (
        field "selfPeer" (client_to_value (self_peer c peer clients)) (
          field "activeTurn" (or_null (active_turn_value r c)) (
            field "queue" (arr (items_of queued_to_value r.queued_prompts)) (
              field "pendingPermissions" (arr (items_of (λ v. v) (pending_permission_values c))) (
                number_field "replayBoundarySeq" (replay_boundary_seq c) (
                  number_field "replayGeneration" r.replay_generation (
                    field "segments" (arr (items_of segment_to_value r.segments)) (
                      field "activeSegmentId"
                        (or_null (map_some (λ n. str (formatted_segment n)) r.active_segment_id))
                        end))))))))

  unfoldable pub attach_meta :
      RoomsExtension → MuxCore → String → String → String → List ConnectedClient → Value
  attach_meta r c peer order delivery clients = obj (
      field "rooms"
        (obj (
          field "connectedClients" (arr (items_of client_to_value clients)) (
            text_field "appliedReplayOrder" order (
              text_field "appliedHistoryDelivery" delivery
                (field "snapshot" (obj (attach_snapshot r c peer clients)) end)))))
        end)

  -- The history by the policy: the view, or the whole lineage; else what the core gave.
  abbrev pub view_history :
      HistoryPolicy
      → RoomsExtension
      → MuxCore
      → Option (List HistoryEntry)
      → Option (List HistoryEntry)
  view_history HistoryPolicy.full r c given = some (replay_history h r c false)
  view_history HistoryPolicy.full_lineage r c given = some (replay_history h r c true)
  view_history HistoryPolicy.pending_only r c given = given
  view_history HistoryPolicy.none r c given = given
  view_history HistoryPolicy.after_message r c given = given

  abbrev pub in_order : String → List HistoryEntry → List HistoryEntry
  in_order order history =
      if order == "newest_turn_first" then newest_turn_first_history history else history

  abbrev pub schedule_permissions : String → List String → Mux RoomsExtension → Mux RoomsExtension
  schedule_permissions peer [] m = m
  schedule_permissions peer (f ∷ fs) m =
      schedule_wake_payload h 1 (pending_permissions peer (f ∷ fs)) m

  abbrev pub permission_frames : MuxCore → List String
  permission_frames c =
      filter_map (λ (p : RequestId × Bytes). h.from_utf8 p.1) c.pending_permissions

  abbrev pub schedule_stream :
      String → String → List HistoryEntry → Mux RoomsExtension → Mux RoomsExtension
  schedule_stream peer order history m =
      schedule_wake_payload h 1
        (replay_stream (
          replay_stream_phases h peer order m.ext.replay_generation (replay_boundary_seq m.core)
            history))
        m

  unfoldable pub on_attach :
      String → AttachParams → AttachResult → Mux RoomsExtension → Mux RoomsExtension × AttachResult
  on_attach peer params result m =
      let order = unwrap_or (attach_meta_str params "replayOrder") "chronological" in
      let requested = unwrap_or (attach_meta_str params "historyDelivery") "response" in
      let delivery = applied_delivery requested result.history_policy in
      let history =
        map_some (in_order order)
          (view_history result.history_policy m.ext m.core result.history) in
      let streams = delivery == "stream" in
      let streamed = if streams then schedule_stream peer order (unwrap_or history []) m else m in
      let woken =
        if is_pending_only result.history_policy
        then schedule_permissions peer (permission_frames m.core) streamed
        else streamed in
      (
        woken,
        record result {
          connected_clients = [];
          history = if streams then none else history;
          extra =
              insert_key "_meta"
                (attach_meta m.ext m.core peer order delivery result.connected_clients)
                result.extra;
        },
      )
