-- ===== src/Rooms/Queue.antt =====
-- crates/rooms/src/extension/queue.rs: the queue of prompts and the steering of a turn.
use acp_mux.Base.{
  ℕ, ◌+◌, String, Bool, true, false, List, [], ◌∷◌, ◌++◌, Option, none, some, is_some, unwrap_or,
  and_then, map_some, if◌then◌else◌, ◌==◌, eq_text, eq_nat, nat_eq, leb, any, not, wrapping_suc,
}
use Prim.Native.String.{◌++◌ as text_append}
use acp_mux.Base.Map
use acp_mux.Json.{
  Value, Fields, obj, arr, nil, item, end, field, get_key, get_field, as_str, str_param,
}
use acp_mux.Jsonrpc.{RequestId, IncomingRequest, ok, err}
use acp_mux.Text.{decimal, trim}
use acp_mux.Host.{Host, Bytes, to_vec_or_empty}
use acp_mux.Core.{MuxCore, PendingRequest}
use acp_mux.Core.Send.{send_result_response, send_error_response}
use acp_mux.Extension.{Mux, over_core}
use acp_mux.Extension.Ctx.{ctx_submit_prompt}
use acp_mux.Rooms.{
  RoomsExtension, QueuedPrompt, QueuedPromptKind, queue, hard_steer, max_mux_queue_prompts,
  queue_full_code, queue_item_not_found_code, invalid_params_code,
}
use acp_mux.Rooms.Frames.{
  formatted_turn, text_field, queue_item_added, queue_item_submitted, queue_item_removed,
}
use acp_mux.Rooms.Presence.{over_ext, note_driving_subscriber}
use acp_mux.Rooms.Turns.{say, emit_turn_started, peer_name_of, role_of}
use acp_mux.Rooms.Refusal.{Refusal, Checked, ◌>>=◌, ◌>>◌, refuse, refuse_if, required}
use acp_mux.Rooms.Control.{ActiveControlParams, control_params, text_from_text_only_prompt}

abbrev pub Room : Type 0
Room = Mux RoomsExtension

abbrev pub is_queue : QueuedPromptKind → Bool
is_queue queue = true
is_queue other = false

abbrev pub is_hard_steer : QueuedPromptKind → Bool
is_hard_steer (hard_steer n) = true
is_hard_steer other = false

unfoldable pub pending_queue_prompt_count : List QueuedPrompt → ℕ
pending_queue_prompt_count [] = 0
pending_queue_prompt_count (p ∷ ps) =
    (if is_queue p.kind then 1 else 0) + pending_queue_prompt_count ps

unfoldable pub has_pending_hard_steer : List QueuedPrompt → Bool
has_pending_hard_steer ps = any (λ (p : QueuedPrompt). is_hard_steer p.kind) ps

abbrev pub has_id : String → QueuedPrompt → Bool
has_id id p = elim p.queue_item_id [ none ↦ false | some j ↦ j == id ]

-- `position` and `remove`: the first item with this id goes.
unfoldable pub remove_item : String → List QueuedPrompt → List QueuedPrompt
remove_item id [] = []
remove_item id (p ∷ ps) = let rest = remove_item id ps in if has_id id p then ps else p ∷ rest

abbrev pub supersedes : QueuedPromptKind → Option ℕ
supersedes (hard_steer turn) = some turn
supersedes other = none

abbrev pub prompt_params : String → String → Value
prompt_params session text = obj (
    text_field "sessionId" session (
      field "prompt" (arr (item (obj (text_field "type" "text" (text_field "text" text end))) nil))
        end))

abbrev pub set_queue : List QueuedPrompt → Room → Room
set_queue ps m = over_ext (λ r. record r { queued_prompts = ps }) m

-- `build_hard_steer_prompt`.
unfoldable pub build_hard_steer_prompt : String → ℕ → Option String → String → String
build_hard_steer_prompt peer turn original steer = text_append "Active turn steered by peer `" (
    text_append peer (
      text_append "` (supersedes " (
        text_append (formatted_turn turn) (
          text_append "). Use the steer below to answer the original prompt.\n\nOriginal:\n" (
            text_append (unwrap_or original "(unavailable/non-text)")
              (text_append "\n\nSteer:\n" steer))))))

-- The peer that waits for the prompt in flight, else the given one.
abbrev pub pending_peer : MuxCore → ℕ → Option String
pending_peer c n = map_some (λ (p : PendingRequest). p.peer_id) (Map.get n c.pending)

abbrev pub original_driver : MuxCore → String → String
original_driver c peer = unwrap_or (and_then c.prompt_in_flight (pending_peer c)) peer

abbrev pub cancel_to_value : String → Value
cancel_to_value session = obj (
    text_field "jsonrpc" "2.0" (
      text_field "method" "session/cancel"
        (field "params" (obj (text_field "sessionId" session end)) end)))

module _ (h : Host) where
  unfoldable pub build_session_cancel : String → Bytes
  build_session_cancel session = to_vec_or_empty h (cancel_to_value session)

  abbrev pub reply : String → RequestId → Value → Room → Room
  reply peer id result m = over_core (send_result_response h peer id result) m

  abbrev pub reject : String → RequestId → Refusal → Room → Room
  reject peer id e m = over_core (send_error_response h peer id e.code e.message) m

  -- What a submitted prompt leaves in the books of the room.
  abbrev pub begin_turn : ℕ → ℕ → QueuedPrompt → Room → Room
  begin_turn mux_id turn p m =
      over_ext
        (λ r. record r {
          per_request =
              Map.insert mux_id
                (record {
                  rooms_turn_id = some turn;
                  queue_item_id = p.queue_item_id;
                  decorate_session_list = false;
                })
                r.per_request;
          active_rooms_turn_id = some turn;
          active_turn_session_id =
              str_param (some (prompt_params p.session_id p.prompt_text)) "sessionId";
          active_turn_prompt_text =
              and_then (get_field (prompt_params p.session_id p.prompt_text) "prompt")
                text_from_text_only_prompt;
        })
        m

  abbrev pub announce_item : Option String → ℕ → Room → Room
  announce_item none turn m = m
  announce_item (some id) turn m = say h (queue_item_submitted h m.core.mux_id id turn) m

  unfoldable pub announce_turn : ℕ → ℕ → QueuedPrompt → Room → Room
  announce_turn mux_id turn p m = announce_item p.queue_item_id turn (
      emit_turn_started h p.peer_id turn (some (prompt_params p.session_id p.prompt_text))
        (supersedes p.kind) (begin_turn mux_id turn p m))

  -- The turn takes its number even if the mux does not take the prompt.
  unfoldable pub submit_item : QueuedPrompt → Room → Room × Option ℕ
  unfolding announce_turn
  submit_item p m =
      let noted = note_driving_subscriber p.peer_id m in
      let turn = noted.ext.next_rooms_turn_id in
      let counted = over_ext (λ r. record r { next_rooms_turn_id = wrapping_suc turn }) noted in
      let r =
        ctx_submit_prompt h p.peer_id (prompt_params p.session_id p.prompt_text) false
          counted.core in
      let submitted = record counted { core = r.0 } in
      if nat_eq r.1 0 then (submitted, none) else (announce_turn r.1 turn p submitted, some r.1)

  abbrev pub submit_first : List QueuedPrompt → Room → Room × Option ℕ
  submit_first [] m = (m, none)
  submit_first (p ∷ ps) m = submit_item p (set_queue ps m)

  -- `pop_front`, and the item goes to the agent.
  unfoldable pub submit_next_queued_prompt : Room → Room × Option ℕ
  unfolding submit_item
  submit_next_queued_prompt m = submit_first m.ext.queued_prompts m

  abbrev pub item_id : ℕ → String
  item_id n = text_append "q-" (decimal n)

  abbrev pub queued_item : String → ActiveControlParams → Room → QueuedPrompt
  queued_item peer control m = record {
    queue_item_id = some (item_id m.ext.next_queue_item_id);
    peer_id = peer;
    session_id = control.session_id;
    prompt_text = control.text;
    kind = queue;
  }

  -- The item at the end of the queue, with its number taken.
  unfoldable pub enqueue : String → ActiveControlParams → Room → Room
  enqueue peer control m =
      over_ext
        (λ r. record r {
          next_queue_item_id = wrapping_suc r.next_queue_item_id;
          queued_prompts = r.queued_prompts ++ queued_item peer control m ∷ [];
        })
        m

  abbrev pub queue_result : String → String → Value
  queue_result id status = obj (text_field "queueItemId" id (text_field "status" status end))

  abbrev pub status_of : Option ℕ → String
  status_of none = "queued"
  status_of (some n) = "submitted"

  abbrev pub announce_queued : String → ActiveControlParams → Room → Room
  announce_queued peer control m =
      say h
        (queue_item_added h m.core.mux_id (item_id m.ext.next_queue_item_id) peer
          (peer_name_of m.core peer) (role_of m.core peer) control.text)
        (enqueue peer control m)

  -- With no prompt in flight the queue's first item is submitted at once.
  unfoldable pub accept_prompt : String → RequestId → ActiveControlParams → Room → Room
  unfolding enqueue
  accept_prompt peer id control m =
      let added = announce_queued peer control m in
      let r =
        if is_some m.core.prompt_in_flight
        then (added, none)
        else submit_next_queued_prompt added in
      reply peer id (queue_result (item_id m.ext.next_queue_item_id) (status_of r.1)) r.0

  unfoldable pub check_queue_prompt : IncomingRequest → Room → Checked ActiveControlParams
  check_queue_prompt req m = do
    control ← control_params false m.ext m.core req
    refuse_if (leb max_mux_queue_prompts (pending_queue_prompt_count m.ext.queued_prompts))
        queue_full_code "queue full"
    ok control

  unfoldable pub handle_rooms_queue_prompt_request : String → IncomingRequest → Room → Room
  unfolding check_queue_prompt
  handle_rooms_queue_prompt_request peer req m = elim (check_queue_prompt req m) [
    | err e ↦ reject peer req.id e m
    | ok control ↦ accept_prompt peer req.id control m
  ]

  abbrev pub unqueue_object : Option Value → Checked Fields
  unqueue_object (some (obj fs)) = ok fs
  unqueue_object other = refuse invalid_params_code "rooms/unqueue_prompt params must be an object"

  -- The id of an item that waits.
  unfoldable pub check_unqueue : IncomingRequest → List QueuedPrompt → Checked String
  check_unqueue req ps = do
    params ← unqueue_object req.params
    raw ←
        required (and_then (get_key "queueItemId" params) as_str) invalid_params_code
          "rooms/unqueue_prompt params.queueItemId must be a string"
    let id = trim raw
    refuse_if (id == "") invalid_params_code
        "rooms/unqueue_prompt params.queueItemId must be non-empty"
    refuse_if (not (any (has_id id) ps)) queue_item_not_found_code "queue item not found"
    ok id

  unfoldable pub handle_rooms_unqueue_prompt_request : String → IncomingRequest → Room → Room
  unfolding check_unqueue
  handle_rooms_unqueue_prompt_request peer req m = elim (check_unqueue req m.ext.queued_prompts) [
    | err e ↦ reject peer req.id e m
    | ok id ↦ reply peer req.id (queue_result id "removed") (
        say h (queue_item_removed h m.core.mux_id id peer)
          (set_queue (remove_item id m.ext.queued_prompts) m))
  ]
