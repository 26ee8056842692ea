-- ===== src/Mux/Steps/FromSubscriber.antt =====
-- The handlers of subscribers' frames as steps of the core.
use acp_mux.Base.{
  if_case, refl, String, Bool, [], ◌∷◌, Option, none, some, is_some, ◌&&◌, ◌==◌, eq_text,
}
use acp_mux.Base.Map
use acp_mux.Json.{Value}
use acp_mux.Jsonrpc.{
  IncomingResponse, IncomingRequest, IncomingNotification, Incoming, ok, err, request, notification,
  response, eq_id,
}
use acp_mux.Host.{Host, Bytes, parse}
use acp_mux.Core.{MuxCore, PendingRequest, AgentReqState, in_flight, consumed}
use acp_mux.Extension.{Mux, MuxExtension, KeepsToCtx, over_core, Disposition, NotifyDisposition}
use acp_mux.Core.Send.{send_error_response}
use acp_mux.Extension.Ctx.{CtxSteps}
use acp_mux.Mux.Session.{consume}
use acp_mux.Mux.Inbound.{
  handle_subscriber_cancel, push_some, handle_subscriber_notification, gate_by_state,
  gate_subscriber_response, submit, forward_request, admit_request, offer_request, answer_or_offer,
  translate_outbound_request, dispatch_inbound, handle_inbound, push_outbox,
  session_busy_error_code,
}
use acp_mux.Mux.Steps.{
  CoreSteps, here, trans, one, of_ctx, pushes, consumes, forwards, numbers, take_number,
}
use acp_mux.Mux.Steps.Frames.{
  send_error-CoreSteps, send_result-CoreSteps, handle_attach-CoreSteps, handle_detach-CoreSteps,
}

module _ {h : Host} {E : Type 0} (x : MuxExtension E) (k : KeepsToCtx h x) where
  push_some-CoreSteps : (o : Option Bytes) (m : Mux E) → CoreSteps h m.core (push_some h x o m).core
  push_some-CoreSteps none m = here
  push_some-CoreSteps (some bytes) m = one (pushes bytes refl)

  disposed :
      (d : NotifyDisposition) (bytes : Bytes) (m : Mux E) (c : MuxCore)
      → CoreSteps h c m.core
      → CoreSteps h c
          (elim d as (λ _. Mux E) [
            | NotifyDisposition.passthrough ↦ over_core (push_outbox bytes) m
            | NotifyDisposition.handled ↦ m
          ]).core
  disposed NotifyDisposition.passthrough bytes m c p = trans p (one (pushes bytes refl))
  disposed NotifyDisposition.handled bytes m c p = p

  notification-CoreSteps :
      (p : String) (n : IncomingNotification) (bytes : Bytes) (m : Mux E)
      → CoreSteps h m.core (handle_subscriber_notification h x p n bytes m).core
  unfolding handle_subscriber_notification
  notification-CoreSteps p n bytes m =
      if_case (λ (r : Mux E). CoreSteps h m.core r.core) (n.method == "$/cancel_request")
        (push_some-CoreSteps (handle_subscriber_cancel h x p n m) m)
        (disposed (x.on_subscriber_notification m p n).1 bytes _ m.core
          (of_ctx (k.subscriber_notification m p n)))

  gate_by_state-CoreSteps :
      (s : Option AgentReqState) (p : String) (r : IncomingResponse) (bytes : Bytes) (m : Mux E)
      → CoreSteps h m.core (gate_by_state h x s p r bytes m).core
  unfolding gate_by_state
  gate_by_state-CoreSteps (some in_flight) p r bytes m = trans (one (consumes r.id refl)) (
      trans (of_ctx (k.agent_request_resolved (over_core (consume r.id) m) r.id _ (some r)))
        (one (pushes bytes refl)))
  gate_by_state-CoreSteps (some consumed) p r bytes m = here
  gate_by_state-CoreSteps none p r bytes m = one (pushes bytes refl)

  submit-CoreSteps :
      (p : String) (entry : PendingRequest) (is_prompt : Bool) (req : IncomingRequest)
      (bytes : Bytes) (m : Mux E) (c : MuxCore)
      → CtxSteps h (take_number c) m.core
      → CoreSteps h c (submit h x p c.next_mux_id entry is_prompt req bytes m).core
  unfolding submit
  submit-CoreSteps p entry is_prompt req [] m c steps = trans (one (numbers refl)) (of_ctx steps)
  submit-CoreSteps p entry is_prompt req (b ∷ bytes) m c steps =
      trans (one (forwards entry is_prompt (b ∷ bytes) steps refl))
        (of_ctx (k.request_forwarded _ p c.next_mux_id req))

  pub forward-CoreSteps :
      (p : String) (req : IncomingRequest) (m : Mux E)
      → CoreSteps h m.core (forward_request h x p req m).core
  unfolding forward_request
  forward-CoreSteps p req m =
      submit-CoreSteps p _ _ _ _ _ m.core
        (k.request_translating (over_core take_number m) p m.core.next_mux_id _)

  admit-CoreSteps :
      (p : String) (req : IncomingRequest) (m : Mux E)
      → CoreSteps h m.core (admit_request h x p req m).core
  unfolding admit_request
  admit-CoreSteps p req m =
      if_case (λ (r : Mux E). CoreSteps h m.core r.core)
        ((req.method == "session/prompt") && is_some m.core.prompt_in_flight)
        (send_error-CoreSteps h p req.id session_busy_error_code "session busy" m.core)
        (forward-CoreSteps p req m)

  offer-CoreSteps :
      (p : String) (req : IncomingRequest) (m : Mux E)
      → CoreSteps h m.core (offer_request h x p req m).core
  unfolding offer_request
  offer-CoreSteps p req m =
      let r = x.on_subscriber_request m p req in
      let asked : CoreSteps h m.core r.0.core = of_ctx (k.subscriber_request m p req) in
      (elim r.2
        as (λ d.
          CoreSteps h m.core
            (elim d as (λ _. Mux E) [
              | Disposition.forward ↦ admit_request h x p r.1 r.0
              | Disposition.handled ↦ r.0
              | Disposition.reject code message ↦
                  over_core (send_error_response h p r.1.id code message) r.0
            ]).core) [
              | Disposition.forward ↦ trans asked (admit-CoreSteps p r.1 r.0)
              | Disposition.handled ↦ asked
              | Disposition.reject code message ↦
                  trans asked (send_error-CoreSteps h p r.1.id code message r.0.core)
            ])

  answer-CoreSteps :
      (cache : Option Value) (p : String) (req : IncomingRequest) (m : Mux E)
      → CoreSteps h m.core (answer_or_offer h x cache p req m).core
  unfolding answer_or_offer
  answer-CoreSteps none p req m = offer-CoreSteps p req m
  answer-CoreSteps (some v) p req m = send_result-CoreSteps h p req.id v m.core

  translate-CoreSteps :
      (p : String) (req : IncomingRequest) (m : Mux E)
      → CoreSteps h m.core (translate_outbound_request h x p req m).core
  unfolding translate_outbound_request
  translate-CoreSteps p req m =
      let P = λ (r : Mux E). CoreSteps h m.core r.core in
      if_case P (req.method == "session/attach") (handle_attach-CoreSteps x k p req m) (
        if_case P (req.method == "session/detach") (handle_detach-CoreSteps x k p req m) (
          if_case P (req.method == "initialize") (answer-CoreSteps m.core.initialize_cache p req m)
            (if_case P (req.method == "session/new")
              (answer-CoreSteps m.core.session_new_cache p req m) (offer-CoreSteps p req m))))

  dispatch_inbound-CoreSteps :
      (p : String) (f : Incoming) (bytes : Bytes) (m : Mux E)
      → CoreSteps h m.core (dispatch_inbound h x p f bytes m).core
  unfolding dispatch_inbound gate_subscriber_response
  dispatch_inbound-CoreSteps p (notification n) bytes m = notification-CoreSteps p n bytes m
  dispatch_inbound-CoreSteps p (response r) bytes m =
      gate_by_state-CoreSteps (Map.get r.id m.core.agent_pending) p r bytes m
  dispatch_inbound-CoreSteps p (request r) bytes m = translate-CoreSteps p r m

  pub inbound-CoreSteps :
      (p : String) (bytes : Bytes) (m : Mux E)
      → CoreSteps h m.core (handle_inbound h x p bytes m).core
  unfolding handle_inbound
  inbound-CoreSteps p bytes m =
      elim (parse h bytes)
        as (λ r.
          CoreSteps h m.core
            (elim r as (λ _. Mux E) [ err e ↦ m | ok f ↦ dispatch_inbound h x p f bytes m ]).core) [
              | err e ↦ here
              | ok f ↦ dispatch_inbound-CoreSteps p f bytes m
            ]
