-- ===== src/Mux/State/OfSubscriber.antt =====
-- The handlers of subscribers' frames keep a property of the state.
use acp_mux.Base.{
  if_case, refl, ℕ, String, Bool, true, false, [], ◌∷◌, Option, none, some, is_some, ◌&&◌, ◌==◌,
  eq_text,
}
use acp_mux.Base.Map
use acp_mux.Json.{Value}
use acp_mux.Jsonrpc.{
  IncomingResponse, IncomingRequest, IncomingNotification, Incoming, ok, err, request, notification,
  response, eq_id,
}
use acp_mux.Host.{Host, Bytes, parse}
use acp_mux.Core.{PendingRequest, AgentReqState, in_flight, consumed}
use acp_mux.Core.Send.{send_error_response, send_result_response}
use acp_mux.Extension.{Mux, MuxExtension, over_core, Disposition, NotifyDisposition}
use acp_mux.Mux.Session.{consume}
use acp_mux.Mux.Inbound.{
  handle_subscriber_cancel, push_some, handle_subscriber_notification, gate_by_state,
  gate_subscriber_response, submit, forward_request, admit_request, offer_request, answer_or_offer,
  translate_outbound_request, dispatch_inbound, handle_inbound, push_outbox, enter_request,
}
use acp_mux.Mux.Steps.{take_number}
use acp_mux.Mux.State.{KeepsState}
use acp_mux.Mux.State.OfParts.{handle_attach_keeps, handle_detach_keeps, response_flight}

module _ (h : Host) {E : Type 0} (x : MuxExtension E) {W P : Mux E → Type 0}
    (k : KeepsState x W P) where
  push_some_keeps : (o : Option Bytes) (m : Mux E) → P m → P (push_some h x o m)
  push_some_keeps none m p = p
  push_some_keeps (some bytes) m p = k.aside m _ refl p

  disposed :
      (d : NotifyDisposition) (bytes : Bytes) (m : Mux E)
      → P m
      → P (elim d as (λ _. Mux E) [
        | NotifyDisposition.passthrough ↦ over_core (push_outbox bytes) m
        | NotifyDisposition.handled ↦ m
      ])
  disposed NotifyDisposition.passthrough bytes m p = k.aside m _ refl p
  disposed NotifyDisposition.handled bytes m p = p

  notification_keeps :
      (peer : String) (n : IncomingNotification) (bytes : Bytes) (m : Mux E)
      → P m
      → P (handle_subscriber_notification h x peer n bytes m)
  unfolding handle_subscriber_notification
  notification_keeps peer n bytes m p =
      if_case P (n.method == "$/cancel_request")
        (push_some_keeps (handle_subscriber_cancel h x peer n m) m p)
        (disposed (x.on_subscriber_notification m peer n).1 bytes _
          (k.subscriber_notification m peer n p))

  gate_keeps :
      (s : Option AgentReqState) (peer : String) (r : IncomingResponse) (bytes : Bytes) (m : Mux E)
      → P m
      → P (gate_by_state h x s peer r bytes m)
  unfolding gate_by_state consume
  gate_keeps (some in_flight) peer r bytes m p =
      k.aside _ _ refl (k.agent_request_resolved _ r.id _ (some r) (k.aside m _ refl p))
  gate_keeps (some consumed) peer r bytes m p = p
  gate_keeps none peer r bytes m p = k.aside m _ refl p

  enter_keeps :
      (n : ℕ) (entry : PendingRequest) (is_prompt : Bool) (bytes : Bytes) (m : Mux E)
      → P m
      → P (over_core (enter_request n entry is_prompt bytes) m)
  unfolding enter_request
  enter_keeps n entry true bytes m p = k.begins m _ refl p
  enter_keeps n entry false bytes m p = k.aside m _ refl p

  submit_keeps :
      (peer : String) (n : ℕ) (entry : PendingRequest) (is_prompt : Bool) (req : IncomingRequest)
      (bytes : Bytes) (m : Mux E)
      → P m
      → P (submit h x peer n entry is_prompt req bytes m)
  unfolding submit
  submit_keeps peer n entry is_prompt req [] m p = p
  submit_keeps peer n entry is_prompt req (b ∷ bytes) m p =
      k.request_forwarded _ peer n req (enter_keeps n entry is_prompt (b ∷ bytes) m p)

  forward_keeps :
      (peer : String) (req : IncomingRequest) (m : Mux E) → P m → P (forward_request h x peer req m)
  unfolding forward_request
  forward_keeps peer req m p = submit_keeps peer m.core.next_mux_id _ _ _ _ _ (
      k.request_translating (over_core take_number m) peer m.core.next_mux_id _
        (k.aside m _ refl p))

  admit_keeps :
      (peer : String) (req : IncomingRequest) (m : Mux E) → P m → P (admit_request h x peer req m)
  unfolding admit_request send_error_response
  admit_keeps peer req m p =
      if_case P ((req.method == "session/prompt") && is_some m.core.prompt_in_flight)
        (k.aside m _ (response_flight h peer _ m.core) p) (forward_keeps peer req m p)

  offer_keeps :
      (peer : String) (req : IncomingRequest) (m : Mux E) → P m → P (offer_request h x peer req m)
  unfolding offer_request send_error_response
  offer_keeps peer req m p =
      let r = x.on_subscriber_request m peer req in
      let asked : P r.0 = k.subscriber_request m peer req p in
      (elim r.2
        as (λ d. P (elim d as (λ _. Mux E) [
          | Disposition.forward ↦ admit_request h x peer r.1 r.0
          | Disposition.handled ↦ r.0
          | Disposition.reject code message ↦
              over_core (send_error_response h peer r.1.id code message) r.0
        ])) [
          | Disposition.forward ↦ admit_keeps peer r.1 r.0 asked
          | Disposition.handled ↦ asked
          | Disposition.reject code message ↦
              k.aside r.0 _ (response_flight h peer _ r.0.core) asked
        ])

  answer_keeps :
      (cache : Option Value) (peer : String) (req : IncomingRequest) (m : Mux E)
      → P m
      → P (answer_or_offer h x cache peer req m)
  unfolding answer_or_offer send_result_response
  answer_keeps none peer req m p = offer_keeps peer req m p
  answer_keeps (some v) peer req m p = k.aside m _ (response_flight h peer _ m.core) p

  translate_keeps :
      (peer : String) (req : IncomingRequest) (m : Mux E)
      → P m
      → P (translate_outbound_request h x peer req m)
  unfolding translate_outbound_request
  translate_keeps peer req m p =
      if_case P (req.method == "session/attach") (handle_attach_keeps h x k peer req m p) (
        if_case P (req.method == "session/detach") (handle_detach_keeps h x k peer req m p) (
          if_case P (req.method == "initialize") (answer_keeps m.core.initialize_cache peer req m p)
            (if_case P (req.method == "session/new")
              (answer_keeps m.core.session_new_cache peer req m p) (offer_keeps peer req m p))))

  dispatch_keeps :
      (peer : String) (f : Incoming) (bytes : Bytes) (m : Mux E)
      → P m
      → P (dispatch_inbound h x peer f bytes m)
  unfolding dispatch_inbound gate_subscriber_response
  dispatch_keeps peer (notification n) bytes m p = notification_keeps peer n bytes m p
  dispatch_keeps peer (response r) bytes m p =
      gate_keeps (Map.get r.id m.core.agent_pending) peer r bytes m p
  dispatch_keeps peer (request r) bytes m p = translate_keeps peer r m p

  pub inbound_keeps :
      (peer : String) (bytes : Bytes) (m : Mux E) → P m → P (handle_inbound h x peer bytes m)
  unfolding handle_inbound
  inbound_keeps peer bytes m p =
      elim (parse h bytes)
        as (λ r.
          P (elim r as (λ _. Mux E) [ err e ↦ m | ok f ↦ dispatch_inbound h x peer f bytes m ])) [
            | err e ↦ p
            | ok f ↦ dispatch_keeps peer f bytes m p
          ]
