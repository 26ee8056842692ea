-- ===== src/Rooms/Proofs/Fifo.antt =====
-- The end of a turn, `on_prompt_settled` of crates/rooms/src/extension/mod.rs.
use acp_mux.Extension.Ctx.{ctx_submit_prompt}
use acp_mux.Rooms.Proofs.Turns.{Encodes}
use acp_mux.Mux.Session.{same_text}
use acp_mux.Rooms.Presence.{note_driving_subscriber, publish_session_list_metadata}
use acp_mux.Rooms.Turns.{emit_turn_started, say, emit_turn_complete}
use acp_mux.Base.{
  ℕ, ◌≡◌, ◌≢◌, ◌≤◌, refl, sym, ap, ◌∙◌, subst, String, false, List, [], ◌∷◌, Option, none, some,
  is_some, if_case, nat_eq, arith, saturating_suc, wrapping_suc, as_i64, or_else, not, eq_nat,
  eq_text, ◌++◌,
}
use acp_mux.Base.Map
use acp_mux.Json.{Value}
use acp_mux.Jsonrpc.{IncomingResponse, number, request}
use acp_mux.Jsonrpc.Write.{to_value}
use acp_mux.Host.{Host, Bytes, to_vec_or_empty}
use acp_mux.Core.{MuxCore, PendingRequest}
use acp_mux.Core.Send.{record_frame, broadcast, submit_prompt, enqueue_prompt, prompt_request}
use acp_mux.Rooms.{QueuedPrompt}
use acp_mux.Rooms.Queue.{
  Room, submit_item, submit_next_queued_prompt, prompt_params, announce_turn, announce_item,
  set_queue, begin_turn, submit_first,
}
use acp_mux.Rooms.Hooks.{
  on_prompt_settled, forget_turn, complete_turn, complete_item, turn_of, item_of,
}

-- What the succession of turns depends on.
pub record Turns : Type 0 where
  pub queued : List QueuedPrompt
  pub active : Option ℕ
  pub next_turn : ℕ
  pub flight : Option ℕ
  pub next_mux_id : ℕ
  pub pending : List (ℕ × PendingRequest)

abbrev pub turns : Room → Turns
turns m = record {
  queued = m.ext.queued_prompts;
  active = m.ext.active_rooms_turn_id;
  next_turn = m.ext.next_rooms_turn_id;
  flight = m.core.prompt_in_flight;
  next_mux_id = m.core.next_mux_id;
  pending = m.core.pending;
}

module _ (h : Host) where
  say_same : (bytes : Bytes) (m : Room) → turns (say h bytes m) ≡ turns m
  unfolding broadcast record_frame
  say_same bytes m =
      elim m.core.replay_log
        as (λ log. turns (record m { core = record_frame h bytes log m.core }) ≡ turns m) [
          | none ↦ refl
          | some log ↦ refl
        ]

  completed_item :
      (item : Option String) (turn : ℕ) (v : Option Value) (m : Room)
      → turns (complete_item h item turn v m) ≡ turns m
  completed_item none turn v m = refl
  completed_item (some id) turn v m = say_same _ m

  completed :
      (turn : Option ℕ) (item : Option String) (v : Option Value) (m : Room)
      → turns (complete_turn h turn item v m) ≡ turns m
  unfolding emit_turn_complete
  completed none item v m = refl
  completed (some turn) item v m = completed_item item turn v _ ∙ say_same _ m

  noted : (p : String) (m : Room) → turns (note_driving_subscriber p m) ≡ turns m
  unfolding note_driving_subscriber publish_session_list_metadata
  noted p m =
      if_case (λ (n : Room). turns n ≡ turns m) (not (is_some (Map.get p m.core.subscribers))) refl
        (if_case (λ (n : Room). turns n ≡ turns m) (same_text m.ext.driving_subscriber_peer_id p)
          refl refl)

  announced_item :
      (id : Option String) (turn : ℕ) (m : Room) → turns (announce_item h id turn m) ≡ turns m
  announced_item none turn m = refl
  announced_item (some id) turn m = say_same _ m

  announced :
      (n turn : ℕ) (p : QueuedPrompt) (m : Room)
      → turns (announce_turn h n turn p m) ≡ record (turns m) { active = some turn }
  unfolding announce_turn emit_turn_started
  announced n turn p m =
      announced_item p.queue_item_id turn _ ∙ say_same _ (begin_turn h n turn p m)

  -- The entry of a prompt that the room submits for a peer.
  abbrev pub room_entry : String → ℕ → PendingRequest
  room_entry peer n = record {
    peer_id = peer;
    original_id = number (as_i64 n);
    handshake = none;
    deliver_response = false;
  }

  -- The state with the prompt of this item in flight.
  abbrev pub begun : QueuedPrompt → Turns → Turns
  begun p t = record t {
    active = some t.next_turn;
    next_turn = wrapping_suc t.next_turn;
    flight = some t.next_mux_id;
    next_mux_id = saturating_suc t.next_mux_id;
    pending = Map.insert t.next_mux_id (room_entry p.peer_id t.next_mux_id) t.pending;
  }

  -- A core that has entered a prompt and its frame.
  abbrev entered : String → Bytes → MuxCore → MuxCore
  entered peer bytes c = record c {
    next_mux_id = saturating_suc c.next_mux_id;
    pending = Map.insert c.next_mux_id (room_entry peer c.next_mux_id) c.pending;
    prompt_in_flight = some c.next_mux_id;
    agent_outbox = c.agent_outbox ++ bytes ∷ [];
  }

  enqueue-entered :
      (peer : String) (bytes : Bytes) (c : MuxCore)
      → bytes ≢ []
      → enqueue_prompt h peer false bytes c ≡ (entered peer bytes c, some c.next_mux_id)
  unfolding enqueue_prompt
  enqueue-entered peer [] c some_bytes = absurd (some_bytes refl)
  enqueue-entered peer (b ∷ bytes) c some_bytes = refl

  abbrev prompt_bytes : Value → MuxCore → Bytes
  prompt_bytes params c =
      to_vec_or_empty h (to_value (request (prompt_request h c.next_mux_id params)))

  submit-entered :
      Encodes h
      → (peer : String) (params : Value) (c : MuxCore) → is_some c.prompt_in_flight ≡ false
      → submit_prompt h peer params false c
        ≡ (entered peer (prompt_bytes params c) c, some c.next_mux_id)
  unfolding submit_prompt
  submit-entered encodes peer params c idle =
      rw idle (enqueue-entered peer (prompt_bytes params c) c (encodes _))

  item_begun :
      Encodes h
      → (p : QueuedPrompt) (m : Room) → is_some m.core.prompt_in_flight ≡ false
      → nat_eq m.core.next_mux_id 0 ≡ false
      → turns (submit_item h p m).0 ≡ begun p (turns m)
  unfolding submit_item ctx_submit_prompt
  item_begun encodes p m idle positive =
      let before = note_driving_subscriber p.peer_id m in
      let same : turns before ≡ turns m = noted p.peer_id m in
      let params = prompt_params p.session_id p.prompt_text in
      let idle' : is_some before.core.prompt_in_flight ≡ false =
        ap (λ (t : Turns). is_some t.flight) same ∙ idle in
      let positive' : nat_eq before.core.next_mux_id 0 ≡ false =
        ap (λ (t : Turns). nat_eq t.next_mux_id 0) same ∙ positive in
      rw (submit-entered encodes p.peer_id params before.core idle', positive')
        (announced before.core.next_mux_id before.ext.next_rooms_turn_id p (record {
          core = entered p.peer_id (prompt_bytes params before.core) before.core;
          ext = record before.ext {
            next_rooms_turn_id = wrapping_suc before.ext.next_rooms_turn_id;
          };
        })
          ∙ ap (begun p) same)

  -- If every value has an encoding, and the numbers of requests have not come to their end: when a turn
  -- ends, the prompt that stands first in the queue leaves it and is in flight, under the next number of
  -- a request and of a turn, for the peer that queued it. The others keep their order.
  pub settled-begun :
      Encodes h
      → (m : Room) (n : ℕ) (r : IncomingResponse) (p : QueuedPrompt) (ps : List QueuedPrompt)
      → m.ext.queued_prompts ≡ p ∷ ps
      → is_some m.core.prompt_in_flight ≡ false
      → 1 ≤ m.core.next_mux_id
      → turns (on_prompt_settled h m n r) ≡ begun p (record (turns m) { queued = ps })
  unfolding on_prompt_settled submit_next_queued_prompt forget_turn
  settled-begun encodes m n r p ps waits idle positive =
      let d = Map.get n m.ext.per_request in
      let done =
        complete_turn h (or_else m.ext.active_rooms_turn_id (turn_of d)) (item_of d) r.result
          (forget_turn h n m) in
      let same : turns done ≡ record (turns m) { active = none } =
        completed (or_else m.ext.active_rooms_turn_id (turn_of d)) (item_of d) r.result
          (forget_turn h n m) in
      let first : done.ext.queued_prompts ≡ p ∷ ps = ap (λ (t : Turns). t.queued) same ∙ waits in
      subst (λ qs. turns (submit_first h qs done).0 ≡ begun p (record (turns m) { queued = ps }))
        (sym first)
        (item_begun encodes p (set_queue ps done) (ap (λ (t : Turns). is_some t.flight) same ∙ idle)
            (ap (λ (t : Turns). nat_eq t.next_mux_id 0) same ∙ ground arith)
          ∙ ap (λ (t : Turns). begun p (record t { queued = ps })) same)
