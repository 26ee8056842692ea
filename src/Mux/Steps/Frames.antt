-- ===== src/Mux/Steps/Frames.antt =====
-- Replies of the mux itself, and joining and leaving, as steps of the core.
use acp_mux.Base.{
  if_case, refl, String, List, [], ◌∷◌, none, is_some, eq_text, ℤ, inl, inr, Option-cases,
  Bool-cases,
}
use acp_mux.Base.Map
use acp_mux.Json.{Value}
use acp_mux.Jsonrpc.{RequestId, IncomingResponse, IncomingRequest, Result, response}
use acp_mux.Jsonrpc.Write.{to_value}
use acp_mux.Host.{Host}
use acp_mux.Core.{Subscriber, ReplayEntry, MuxCore}
use acp_mux.Core.Send.{send_to, send_response, send_result_response, send_error_response}
use acp_mux.Extension.{Mux, MuxExtension, KeepsToCtx, over_core}
use acp_mux.Mux.Attach.{
  AttachError, attach, detach, replay, is_gone, insert_subscriber, replay_snapshot,
}
use acp_mux.Mux.Local.{handle_attach_request, handle_detach_request, is_foreign, resolve_session_id}
use acp_mux.Mux.Steps.{CoreSteps, here, trans, one, of_ctx, by_send, joins, leaves}
use acp_mux.Attach.{attach_params, detach_session_id, attach_err_not_found}

pub send_response-CoreSteps :
    (h : Host) (peer : String) (resp : IncomingResponse) (c : MuxCore)
    → CoreSteps h c (send_response h peer resp c)
unfolding send_response
send_response-CoreSteps h peer resp c = elim (Option-cases (h.to_vec (to_value (response resp)))) [
  | inl e ↦ rw (e, send_response) here
  | inr (bytes, e) ↦ rw (e, send_response) (by_send peer bytes c)
]

pub send_result-CoreSteps :
    (h : Host) (peer : String) (id : RequestId) (v : Value) (c : MuxCore)
    → CoreSteps h c (send_result_response h peer id v c)
unfolding send_result_response
send_result-CoreSteps h peer id v c = send_response-CoreSteps h peer _ c

pub send_error-CoreSteps :
    (h : Host) (peer : String) (id : RequestId) (code : ℤ) (message : String) (c : MuxCore)
    → CoreSteps h c (send_error_response h peer id code message c)
unfolding send_error_response
send_error-CoreSteps h peer id code message c = send_response-CoreSteps h peer _ c

module _ {h : Host} {E : Type 0} (x : MuxExtension E) (k : KeepsToCtx h x) where
  pub replay-CoreSteps :
      (peer : String) (es : List ReplayEntry) (m : Mux E)
      → CoreSteps h m.core (replay x peer es m).core
  unfolding replay
  replay-CoreSteps peer [] m = here
  replay-CoreSteps peer (e ∷ es) m =
      let r = x.replay_frame m e in
      let first : CoreSteps h m.core r.0.core = of_ctx (k.replay m e) in
      elim (Option-cases r.1) [
        | inl skip ↦ rw (skip, replay) (trans first (replay-CoreSteps peer es r.0))
        | inr (bytes, sent) ↦
            rw (sent, replay)
              (elim (Bool-cases (is_gone (Map.get peer r.0.core.subscribers))) [
                | inl gone ↦ rw gone first
                | inr open_ ↦ rw open_ (
                    trans first (
                      trans (by_send peer bytes r.0.core)
                        (replay-CoreSteps peer es (over_core (send_to peer bytes) r.0))))
              ])
      ]

  pub attach-CoreSteps : (s : Subscriber) (m : Mux E) → CoreSteps h m.core (attach x s m).0.core
  unfolding attach
  attach-CoreSteps s m =
      let announced = x.on_subscriber_attaching m s in
      let inserted = over_core (insert_subscriber s) announced in
      let joined = x.on_subscriber_attached inserted s.peer_id in
      if_case (λ (r : Mux E × Result AttachError (Unit {0})). CoreSteps h m.core r.0.core)
        (is_some (Map.get s.peer_id m.core.subscribers)) here
        (trans (of_ctx (k.subscriber_attaching m s)) (
          trans (one (joins s refl)) (
            trans (of_ctx (k.subscriber_attached inserted s.peer_id)) (
              replay-CoreSteps s.peer_id
                (replay_snapshot s.suppress_legacy_replay m.core.replay_log) joined))))

  pub detach-CoreSteps : (peer : String) (m : Mux E) → CoreSteps h m.core (detach x peer m).core
  unfolding detach
  detach-CoreSteps peer m =
      if_case (λ (r : Mux E). CoreSteps h m.core r.core) (is_some (Map.get peer m.core.subscribers))
        (trans (one (leaves peer refl)) (of_ctx (k.subscriber_detached _ peer))) here

  pub handle_attach-CoreSteps :
      (peer : String) (req : IncomingRequest) (m : Mux E)
      → CoreSteps h m.core (handle_attach_request h x peer req m).core
  unfolding handle_attach_request
  handle_attach-CoreSteps peer req m =
      let params = attach_params req.params in
      if_case (λ (r : Mux E). CoreSteps h m.core r.core)
        (is_foreign m.core params.session_id (resolve_session_id m.core params.session_id))
        (send_error-CoreSteps h peer req.id attach_err_not_found "session not found" m.core)
        (trans (of_ctx (k.attach m peer params _)) (send_result-CoreSteps h peer req.id _ _))

  pub handle_detach-CoreSteps :
      (peer : String) (req : IncomingRequest) (m : Mux E)
      → CoreSteps h m.core (handle_detach_request h x peer req m).core
  unfolding handle_detach_request
  handle_detach-CoreSteps peer req m =
      if_case (λ (r : Mux E). CoreSteps h m.core r.core)
        (is_foreign m.core (detach_session_id req.params) (resolve_session_id m.core none))
        (send_error-CoreSteps h peer req.id attach_err_not_found "session not found" m.core)
        (trans (send_result-CoreSteps h peer req.id _ m.core) (detach-CoreSteps peer _))
