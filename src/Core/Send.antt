-- ===== src/Core/Send.antt =====
-- crates/acp-mux/src/mux/actor.rs: what the mux sends to its subscribers, and `submit_prompt`.
use acp_mux.Base.{
  ℕ, String, Bool, List, [], ◌∷◌, ◌++◌, Option, none, some, is_some, map_some, ◌==◌, eq_text,
  eq_nat, if◌then◌else◌, saturating_suc, as_i64, ℤ,
}
use acp_mux.Base.Map
use acp_mux.Json.{Value}
use acp_mux.Jsonrpc.{RequestId, number, IncomingRequest, IncomingResponse, request, response}
use acp_mux.Jsonrpc.Write.{to_value}
use acp_mux.Host.{Host, Bytes, to_vec_or_empty}
use acp_mux.Core.{
  OutMsg, close, frame, Outbound, Subscriber, ReplayEntry, RoomReplayStore, PendingRequest, MuxCore,
}

-- A send fails if the receiver is gone.
unfoldable pub send : Outbound → OutMsg → Outbound
send o msg = if o.closed then o else record o { sent = o.sent ++ msg ∷ [] }

abbrev pub send_sub : OutMsg → Subscriber → Subscriber
send_sub msg s = record s { outbound = send s.outbound msg }

-- To each subscriber in turn; a failed send is only logged.
unfoldable pub send_all : OutMsg → List (String × Subscriber) → List (String × Subscriber)
send_all msg [] = []
send_all msg ((k, s) ∷ subs) = (k, send_sub msg s) ∷ send_all msg subs

-- `retain`: a subscriber whose send fails is dropped.
unfoldable pub send_or_drop : OutMsg → List (String × Subscriber) → List (String × Subscriber)
send_or_drop msg [] = []
send_or_drop msg ((k, s) ∷ subs) =
    let rest = send_or_drop msg subs in
    if s.outbound.closed then rest else (k, send_sub msg s) ∷ rest

unfoldable pub send_one : String → OutMsg → List (String × Subscriber) → List (String × Subscriber)
send_one peer msg [] = []
send_one peer msg ((k, s) ∷ subs) =
    if k == peer then (k, send_sub msg s) ∷ subs else (k, s) ∷ send_one peer msg subs

unfoldable pub send_to : String → Bytes → MuxCore → MuxCore
send_to peer bytes c = record c { subscribers = send_one peer (frame bytes) c.subscribers }

unfoldable pub fanout : Bytes → MuxCore → MuxCore
fanout bytes c = record c { subscribers = send_or_drop (frame bytes) c.subscribers }

unfoldable pub close_all_subscribers : ℕ → String → MuxCore → MuxCore
close_all_subscribers code reason c = record c {
  subscribers = send_all (close code reason) c.subscribers;
}

module _ (h : Host) where
  -- `RoomReplayStore::append`: a frame that is no JSON is skipped, and a failed write is only logged.
  unfoldable pub append_record : ℕ → ℕ → Bytes → RoomReplayStore → RoomReplayStore
  append_record seq tag bytes store = elim (h.from_slice bytes) [
    | none ↦ store
    | some v ↦
        if h.append_succeeds seq
        then store
          ++ record {
            v = 1;
            seq = seq;
            segment_id = tag;
            recorded_at = h.recorded_at seq;
            frame = v;
          }
            ∷ []
        else store
  ]

  unfoldable pub record_frame : Bytes → Option (List ReplayEntry) → MuxCore → MuxCore
  record_frame bytes none c = c
  record_frame bytes (some log) c = record c {
    replay_log = some (log ++ entry ∷ []);
    next_replay_seq = saturating_suc c.next_replay_seq;
    replay_store = map_some (append_record c.next_replay_seq c.replay_tag bytes) c.replay_store;
  }
    where
      entry : ReplayEntry
      entry = record {
        frame = bytes;
        recorded_at = h.recorded_at c.next_replay_seq;
        seq = c.next_replay_seq;
        ext_tag = c.replay_tag;
      }

  -- Record, then send to everybody.
  unfoldable pub broadcast : Bytes → MuxCore → MuxCore
  unfolding record_frame
  broadcast bytes c =
      let d = record_frame bytes c.replay_log c in
      record d { subscribers = send_all (frame bytes) d.subscribers }

  unfoldable pub send_response : String → IncomingResponse → MuxCore → MuxCore
  send_response peer resp c = elim (h.to_vec (to_value (response resp))) [
    | none ↦ c
    | some bytes ↦ send_to peer bytes c
  ]

  unfoldable pub send_result_response : String → RequestId → Value → MuxCore → MuxCore
  send_result_response peer id result =
      send_response peer (record { id = id; result = some result; error = none })

  unfoldable pub send_error_response : String → RequestId → ℤ → String → MuxCore → MuxCore
  send_error_response peer id code message = send_response peer (record {
    id = id;
    result = none;
    error = some (record { code = code; message = message; payload = none });
  })

  -- The prompt of an extension: a fresh mux id that is its own original id.
  unfoldable pub prompt_request : ℕ → Value → IncomingRequest
  prompt_request mux_id params = record {
    id = number (as_i64 mux_id);
    method = "session/prompt";
    params = some params;
  }

  unfoldable pub enqueue_prompt : String → Bool → Bytes → MuxCore → MuxCore × Option ℕ
  enqueue_prompt peer deliver [] c = (record c { next_mux_id = saturating_suc c.next_mux_id }, none)
  enqueue_prompt peer deliver (b ∷ bytes) c = (
    record c {
      next_mux_id = saturating_suc c.next_mux_id;
      pending = Map.insert c.next_mux_id entry c.pending;
      prompt_in_flight = some c.next_mux_id;
      agent_outbox = c.agent_outbox ++ (b ∷ bytes) ∷ [];
    },
    some c.next_mux_id,
  )
    where
      entry : PendingRequest
      entry = record {
        peer_id = peer;
        original_id = number (as_i64 c.next_mux_id);
        handshake = none;
        deliver_response = deliver;
      }

  -- `submit_prompt`: refused while a prompt is in flight.
  unfoldable pub submit_prompt : String → Value → Bool → MuxCore → MuxCore × Option ℕ
  unfolding enqueue_prompt prompt_request
  submit_prompt peer params deliver c =
      if is_some c.prompt_in_flight
      then (c, none)
      else enqueue_prompt peer deliver
          (to_vec_or_empty h (to_value (request (prompt_request c.next_mux_id params)))) c
