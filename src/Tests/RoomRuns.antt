-- ===== src/Tests/RoomRuns.antt =====
-- The theorems on the queue and the turns of a room, in a room where one prompt is in flight and others
-- wait for its end.
use acp_mux.Json.{get_key}
use acp_mux.Text.{trim}
use acp_mux.Rooms.Proofs.Unqueue.{Unqueued, unqueue-Unqueued}
use acp_mux.Rooms.Proofs.Index.{get-published, without}
use acp_mux.Rooms.Presence.{published, cleared}
use acp_mux.Base.Map
use acp_mux.Rooms.Frames.{text_field}
use acp_mux.Core.{MuxCore}
use acp_mux.Rooms.Proofs.Fifo.{turns, begun, settled-begun}
use acp_mux.Core.New.{new_core}
use acp_mux.Host.{to_vec_or_empty, Host}
use acp_mux.Rooms.Steps.Reached.{IsNumbered}
use acp_mux.Rooms.Proofs.Turns.{no_prompt_stalls, Encodes}
use acp_mux.Rooms.Hooks.{rooms, on_prompt_settled}
use acp_mux.Mux.Inbound.{translate_outbound_request}
use acp_mux.Rooms.Steps.Queued.{IsOrdered}
use acp_mux.Rooms.Queue.{
  pending_queue_prompt_count, Room, handle_rooms_queue_prompt_request, cancel_to_value,
  handle_rooms_unqueue_prompt_request,
}
use acp_mux.Rooms.Proofs.Refused.{
  dealings, full_queue-dealings, session_prompt, second_prompt-dealings,
}
use acp_mux.Rooms.{QueuedPrompt, RoomsOptions, new_rooms, queue, SessionListIndex}
use acp_mux.Mux.Run.{reach}
use acp_mux.Rooms.Proofs.Reached.{reached, queue-IsOrdered, segments-IsNumbered}
use acp_mux.Base.{
  ◌≤◌, ◌≡◌, refl, String, true, false, List, [], ◌∷◌, none, some, is_some, ◌⊎◌, length, arith,
  eq_nat, eq_text,
}
use acp_mux.Tests.{
  host, options, alice, from_alice, from_agent, first_response, new_core, Event, IncomingRequest,
  to_vec_or_empty, text, obj, field, str, end,
}

abbrev item_named : String → QueuedPrompt
item_named id = record {
  queue_item_id = some id;
  peer_id = "alice";
  session_id = "s1";
  prompt_text = "next";
  kind = queue;
}

abbrev plain : RoomsOptions
plain = record { meta_propagate = false; emit_segment_frames = true }

abbrev room_with : List QueuedPrompt → Room
room_with ps = record {
  core = new_core host "mux" options;
  ext = record (new_rooms plain []) { queued_prompts = ps };
}

abbrev flying_room : Room
flying_room = record {
  core = record (new_core host "mux" options) { prompt_in_flight = some 1 };
  ext = new_rooms plain [];
}

host-Encodes : Encodes host
unfolding to_vec_or_empty
host-Encodes v e = ground arith

-- A prompt, its update, and the response that ends the turn.
abbrev prompted : List Event
prompted = from_alice 4 ∷ from_agent 3 ∷ from_agent 5 ∷ []

queue-IsOrdered_example :
    let r = reached host "mux" options plain [] alice prompted in
    IsOrdered r.queued_prompts
    × (pending_queue_prompt_count r.queued_prompts ≤ 6)
    × (length r.queued_prompts ≤ 7)
queue-IsOrdered_example = queue-IsOrdered host "mux" options plain [] alice prompted

segments-IsNumbered_example : IsNumbered (reached host "mux" options plain [] alice prompted)
segments-IsNumbered_example = segments-IsNumbered host "mux" options plain [] alice prompted

no_prompt_stalls_example :
    let m = (reach host (rooms host) "mux" options (new_rooms plain []) alice prompted).mux in
    (is_some m.core.prompt_in_flight ≡ true) ⊎ (m.ext.queued_prompts ≡ [])
no_prompt_stalls_example = no_prompt_stalls host host-Encodes "mux" options plain [] alice prompted

settled-begun_example :
    let m = room_with (item_named "q-1" ∷ item_named "q-2" ∷ []) in
    turns (on_prompt_settled host m 1 first_response)
    ≡ begun host (item_named "q-1") (record (turns m) { queued = item_named "q-2" ∷ [] })
unfolding new_core
settled-begun_example =
    settled-begun host host-Encodes (room_with (item_named "q-1" ∷ item_named "q-2" ∷ [])) 1
      first_response (item_named "q-1") (item_named "q-2" ∷ []) refl refl (omega arith)

abbrev six : List QueuedPrompt
six =
    item_named "q-1"
    ∷ item_named "q-2"
    ∷ item_named "q-3"
    ∷ item_named "q-4"
    ∷ item_named "q-5"
    ∷ item_named "q-6"
    ∷ []

abbrev one_more : IncomingRequest
one_more = record { id = text "a"; method = "rooms/queue_prompt"; params = none }

full_queue-dealings_example :
    dealings (handle_rooms_queue_prompt_request host "alice" one_more (room_with six))
    ≡ dealings (room_with six)
unfolding pending_queue_prompt_count
full_queue-dealings_example =
    full_queue-dealings host "alice" one_more (room_with six) (omega arith)

second_prompt-dealings_example :
    dealings (
      translate_outbound_request host
        (rooms host)
        "alice"
        (session_prompt host (text "b") none)
        flying_room)
    ≡ dealings flying_room
second_prompt-dealings_example =
    second_prompt-dealings host "alice" (text "b") none flying_room refl

-- A host whose reader takes every frame for the one that cancels.
abbrev cancelling : Host
cancelling = record host { from_slice = λ b. some (cancel_to_value "s1") }

abbrev active_room : Room
active_room = record flying_room {
  ext = record flying_room.ext {
    active_rooms_turn_id = some 1;
    active_turn_session_id = some "s1";
  };
}

abbrev in_session : MuxCore
in_session = record (new_core host "mux" options) { canonical_session_id = some "s1" }

abbrev foreign : SessionListIndex
foreign =
    ("s1", record { room_id = "other"; subscriber_count = 2; driving_subscriber = none })
    ∷ ("s2", record { room_id = "mux"; subscriber_count = 1; driving_subscriber = none })
    ∷ []

get-published_example :
    (Map.get "s2" (published in_session none foreign) ≡ Map.get "s2" foreign)
    × (Map.get "s2" (cleared in_session foreign) ≡ Map.get "s2" foreign)
    × (Map.get "s1" (published in_session none foreign)
        ≡ without in_session.mux_id (Map.get "s1" foreign))
    × (Map.get "s1" (cleared in_session foreign) ≡ without in_session.mux_id (Map.get "s1" foreign))
unfolding new_core
get-published_example = get-published in_session none "s1" "s2" foreign refl refl

abbrev take_back : IncomingRequest
take_back = record {
  id = text "u";
  method = "rooms/unqueue_prompt";
  params = some (obj (field "queueItemId" (str "q-2") end));
}

unqueue-Unqueued_example :
    let n = handle_rooms_unqueue_prompt_request host "alice" take_back (room_with six) in
    Unqueued "q-2" six n.ext.queued_prompts
    × (dealings n ≡ record (dealings (room_with six)) {
      ext = record (room_with six).ext { queued_prompts = n.ext.queued_prompts };
    })
unfolding get_key trim
unqueue-Unqueued_example =
    unqueue-Unqueued host "alice" take_back (room_with six) (text_field "queueItemId" "q-2" end)
      "q-2" refl refl refl
