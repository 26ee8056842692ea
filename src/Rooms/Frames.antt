-- ===== src/Rooms/Frames.antt =====
-- crates/rooms/src/protocol/rooms.rs: the frames of the `rooms/` namespace.
use acp_mux.Base.{ℕ, String, Bool, Option, map_some}
use Prim.Native.String.{◌++◌ as text_append}
use acp_mux.Json.{Value, Fields, num, pos_int, bool, obj, str, field, end}
use acp_mux.Jsonrpc.Write.{opt_field}
use acp_mux.Host.{Host, Bytes, to_vec_or_empty}
use acp_mux.Text.{decimal}
use acp_mux.Rooms.{EndReason, session_load, acp_session_id_changed}

-- `RoomsTurnId::formatted` and `SegmentId::formatted`.
unfoldable pub formatted_turn : ℕ → String
formatted_turn id = text_append "at-" (decimal id)

unfoldable pub formatted_segment : ℕ → String
formatted_segment id = text_append "seg-" (decimal id)

abbrev pub end_reason_name : EndReason → String
end_reason_name session_load = "session_load"
end_reason_name acp_session_id_changed = "acp_session_id_changed"

-- `skip_serializing_if = "Option::is_none"`, on a text and on a turn.
abbrev pub opt_text : String → Option String → Fields → Fields
opt_text k s = opt_field k (map_some str s)

abbrev pub opt_turn : String → Option ℕ → Fields → Fields
opt_turn k id = opt_field k (map_some (λ n. str (formatted_turn n)) id)

abbrev pub text_field : String → String → Fields → Fields
text_field k s = field k (str s)

abbrev pub number_field : String → ℕ → Fields → Fields
number_field k n = field k (num (pos_int n))

module _ (h : Host) where
  unfoldable pub encode : String → Fields → Bytes
  encode method params = to_vec_or_empty h (
      obj
        (text_field "jsonrpc" "2.0" (text_field "method" method (field "params" (obj params) end))))

  unfoldable pub peer_joined : String → String → Option String → Option String → Bytes
  peer_joined room_id peer_id peer_name role = encode "rooms/peer_joined" (
      text_field "roomId" room_id
        (text_field "peerId" peer_id (opt_text "peerName" peer_name (opt_text "role" role end))))

  unfoldable pub peer_left : String → String → Bytes
  peer_left room_id peer_id =
      encode "rooms/peer_left" (text_field "roomId" room_id (text_field "peerId" peer_id end))

  unfoldable pub session_context : String → String → Bytes
  session_context room_id cwd =
      encode "rooms/session_context" (text_field "roomId" room_id (text_field "cwd" cwd end))

  unfoldable pub turn_started :
      String → ℕ → String → Option String → Option String → Value → Option ℕ → Bytes
  turn_started room_id turn peer_id peer_name role content supersedes =
      encode "rooms/turn_started" (
        text_field "roomId" room_id (
          text_field "roomsTurnId" (formatted_turn turn) (
            text_field "peerId" peer_id (
              opt_text "peerName" peer_name (
                opt_text "role" role
                  (field "content" content (opt_turn "supersedesTurnId" supersedes end)))))))

  unfoldable pub turn_complete : String → ℕ → Value → Bytes
  turn_complete room_id turn stop_reason = encode "rooms/turn_complete" (
      text_field "roomId" room_id
        (text_field "roomsTurnId" (formatted_turn turn) (field "stopReason" stop_reason end)))

  unfoldable pub session_busy : String → Bool → Option String → Bytes
  session_busy room_id busy held_by =
      encode "rooms/session_busy"
        (text_field "roomId" room_id (field "busy" (bool busy) (opt_text "heldBy" held_by end)))

  unfoldable pub turn_cancelled : String → ℕ → String → String → Option String → Bytes
  turn_cancelled room_id turn cancelled_by original_driver reason = encode "rooms/turn_cancelled" (
      text_field "roomId" room_id (
        text_field "roomsTurnId" (formatted_turn turn) (
          text_field "cancelledBy" cancelled_by
            (text_field "originalDriver" original_driver (opt_text "reason" reason end)))))

  unfoldable pub control_submitted :
      String → String → String → String → Option String → Option String → Option ℕ → String → Bytes
  control_submitted room_id kind mode peer_id peer_name role turn text =
      encode "rooms/control_submitted" (
        text_field "roomId" room_id (
          text_field "kind" kind (
            text_field "mode" mode (
              text_field "peerId" peer_id (
                opt_text "peerName" peer_name (
                  opt_text "role" role
                    (opt_turn "roomsTurnId" turn (text_field "text" text end))))))))

  unfoldable pub queue_item_added :
      String → String → String → Option String → Option String → String → Bytes
  queue_item_added room_id item peer_id peer_name role text = encode "rooms/queue_item_added" (
      text_field "roomId" room_id (
        text_field "queueItemId" item (
          text_field "peerId" peer_id (
            opt_text "peerName" peer_name
              (opt_text "role" role (text_field "text" text (text_field "status" "queued" end)))))))

  unfoldable pub queue_item_submitted : String → String → ℕ → Bytes
  queue_item_submitted room_id item turn = encode "rooms/queue_item_submitted" (
      text_field "roomId" room_id
        (text_field "queueItemId" item (text_field "roomsTurnId" (formatted_turn turn) end)))

  unfoldable pub queue_item_completed : String → String → ℕ → Value → Bytes
  queue_item_completed room_id item turn stop_reason = encode "rooms/queue_item_completed" (
      text_field "roomId" room_id (
        text_field "queueItemId" item
          (text_field "roomsTurnId" (formatted_turn turn) (field "stopReason" stop_reason end))))

  unfoldable pub queue_item_removed : String → String → String → Bytes
  queue_item_removed room_id item removed_by = encode "rooms/queue_item_removed" (
      text_field "roomId" room_id (
        text_field "queueItemId" item
          (text_field "removedBy" removed_by (text_field "reason" "unqueued" end))))

  unfoldable pub queue_item_orphaned : String → String → String → Bytes
  queue_item_orphaned room_id item peer_id = encode "rooms/queue_item_orphaned" (
      text_field "roomId" room_id (text_field "queueItemId" item (text_field "peerId" peer_id end)))

  abbrev pub replay_marker : String → String → String → ℕ → ℕ → ℕ → Fields
  replay_marker room_id phase order generation boundary count = text_field "roomId" room_id (
      text_field "phase" phase (
        text_field "replayOrder" order (
          number_field "generation" generation
            (number_field "replayBoundarySeq" boundary (number_field "frameCount" count end)))))

  unfoldable pub replay_started : String → String → String → ℕ → ℕ → ℕ → Bytes
  replay_started room_id phase order generation boundary count =
      encode "rooms/replay_started" (replay_marker room_id phase order generation boundary count)

  unfoldable pub replay_complete : String → String → String → ℕ → ℕ → ℕ → Bytes
  replay_complete room_id phase order generation boundary count =
      encode "rooms/replay_complete" (replay_marker room_id phase order generation boundary count)

  unfoldable pub agent_request_opened : String → Value → String → Option Value → Option ℕ → Bytes
  agent_request_opened room_id id method params turn = encode "rooms/agent_request_opened" (
      text_field "roomId" room_id (
        field "requestId" id (
          text_field "requestMethod" method
            (opt_field "requestParams" params (opt_turn "roomsTurnId" turn end)))))

  unfoldable pub agent_request_resolved :
      String → Value → String → Option Value → Option Value → Bytes
  agent_request_resolved room_id id resolved_by result error =
      encode "rooms/agent_request_resolved" (
        text_field "roomId" room_id (
          field "requestId" id (
            text_field "resolvedBy" resolved_by
              (opt_field "result" result (opt_field "error" error end)))))

  unfoldable pub segment_started : String → ℕ → Option String → String → Bytes
  segment_started room_id id session opened_at = encode "rooms/segment_started" (
      text_field "roomId" room_id (
        text_field "segmentId" (formatted_segment id)
          (opt_text "acpSessionId" session (text_field "openedAt" opened_at end))))

  unfoldable pub segment_ended : String → ℕ → String → EndReason → Option ℕ → Bytes
  segment_ended room_id id closed_at reason successor = encode "rooms/segment_ended" (
      text_field "roomId" room_id (
        text_field "segmentId" (formatted_segment id) (
          text_field "closedAt" closed_at (
            text_field "endReason" (end_reason_name reason) (
              opt_field "successorSegmentId" (map_some (λ n. str (formatted_segment n)) successor)
                end)))))
