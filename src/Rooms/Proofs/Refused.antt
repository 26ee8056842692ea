-- ===== src/Rooms/Proofs/Refused.antt =====
-- Requests that a room refuses, crates/rooms/src/extension/queue.rs and mod.rs.
use acp_mux.Json.{Value}
use acp_mux.Rooms.Hooks.{on_subscriber_request, say_busy, rooms}
use acp_mux.Rooms.Turns.{say}
use acp_mux.Mux.Inbound.{translate_outbound_request, offer_request, admit_request}
use acp_mux.Base.{
  ◌∙◌, ℕ, ◌≡◌, refl, String, true, List, Option, none, some, is_some, inl, inr, arith, Option-cases,
  ◌≤◌, subst, sym,
}
use acp_mux.Jsonrpc.{IncomingRequest, IncomingResponse, response, RequestId}
use acp_mux.Jsonrpc.Write.{to_value}
use acp_mux.Host.{Host, Bytes}
use acp_mux.Core.{PendingRequest}
use acp_mux.Core.Send.{broadcast, record_frame, send_response, send_error_response, send_to}
use acp_mux.Extension.{over_core, Disposition}
use acp_mux.Rooms.{RoomsExtension, session_busy_code}
use acp_mux.Rooms.Queue.{
  Room, pending_queue_prompt_count, handle_rooms_queue_prompt_request, check_queue_prompt, reject,
}
use acp_mux.Rooms.Refusal.{Refusal, Checked-cases}
use acp_mux.Rooms.Steps.OfQueue.{accepted-left}

-- What the agent is asked and answers, and the state of the room.
pub record Dealings : Type 0 where
  pub pending : List (ℕ × PendingRequest)
  pub prompt_in_flight : Option ℕ
  pub next_mux_id : ℕ
  pub agent_outbox : List Bytes
  pub ext : RoomsExtension

abbrev pub dealings : Room → Dealings
dealings m = record {
  pending = m.core.pending;
  prompt_in_flight = m.core.prompt_in_flight;
  next_mux_id = m.core.next_mux_id;
  agent_outbox = m.core.agent_outbox;
  ext = m.ext;
}

module _ (h : Host) where
  pub respond-dealings :
      (peer : String) (r : IncomingResponse) (m : Room)
      → dealings (over_core (send_response h peer r) m) ≡ dealings m
  unfolding send_response send_to
  respond-dealings peer r m = elim (Option-cases (h.to_vec (to_value (response r)))) [
    | inl e ↦ rw (e, send_response) refl
    | inr (bytes, e) ↦ rw (e, send_response) refl
  ]

  pub reject-dealings :
      (peer : String) (id : RequestId) (e : Refusal) (m : Room)
      → dealings (reject h peer id e m) ≡ dealings m
  unfolding send_error_response
  reject-dealings peer id e m = respond-dealings peer _ m

  pub say-dealings : (bytes : Bytes) (m : Room) → dealings (say h bytes m) ≡ dealings m
  unfolding broadcast record_frame
  say-dealings bytes m =
      elim m.core.replay_log
        as (λ log. dealings (record m { core = record_frame h bytes log m.core }) ≡ dealings m) [
          | none ↦ refl
          | some log ↦ refl
        ]

  -- While six prompts wait, `rooms/queue_prompt` changes neither the room nor what the agent is asked,
  -- whatever the request holds.
  pub full_queue-dealings :
      (peer : String) (req : IncomingRequest) (m : Room)
      → 6 ≤ pending_queue_prompt_count m.ext.queued_prompts
      → dealings (handle_rooms_queue_prompt_request h peer req m) ≡ dealings m
  unfolding handle_rooms_queue_prompt_request
  full_queue-dealings peer req m full = elim (Checked-cases (check_queue_prompt h req m)) [
    | inl (e, refused) ↦
        rw (refused, handle_rooms_queue_prompt_request) (reject-dealings peer req.id e m)
    | inr (control, accepted) ↦ absurd (ground (arith, accepted-left h req m control accepted))
  ]

  abbrev pub session_prompt : RequestId → Option Value → IncomingRequest
  session_prompt id params = record { id = id; method = "session/prompt"; params = params }

  asked :
      (peer : String) (id : RequestId) (params : Option Value) (m : Room)
      → is_some m.core.prompt_in_flight ≡ true
      → on_subscriber_request h m peer (session_prompt id params) ≡ (
        say_busy h m,
        session_prompt id params,
        Disposition.reject session_busy_code "session busy: another turn is in flight",
      )
  unfolding on_subscriber_request
  asked peer id params m busy = rw busy refl

  -- A second prompt while one is in flight is refused, by the mux with the room's help: neither the room
  -- nor what the agent is asked changes.
  pub second_prompt-dealings :
      (peer : String) (id : RequestId) (params : Option Value) (m : Room)
      → is_some m.core.prompt_in_flight ≡ true
      → dealings (translate_outbound_request h (rooms h) peer (session_prompt id params) m)
        ≡ dealings m
  unfolding translate_outbound_request offer_request say_busy send_error_response
  second_prompt-dealings peer id params m busy =
      subst
        (λ r.
          dealings (elim r.2 as (λ _. Room) [
            | Disposition.forward ↦ admit_request h (rooms h) peer r.1 r.0
            | Disposition.handled ↦ r.0
            | Disposition.reject code message ↦
                over_core (send_error_response h peer r.1.id code message) r.0
          ])
          ≡ dealings m)
        (sym (asked peer id params m busy))
        (respond-dealings peer _ (say_busy h m) ∙ say-dealings _ m)
