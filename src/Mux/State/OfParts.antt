-- ===== src/Mux/State/OfParts.antt =====
-- Replies of the mux itself, and joining and leaving, keep a property of the state.
use acp_mux.Base.{
  if_case, refl, ◌≡◌, String, List, [], ◌∷◌, none, is_some, eq_text, inl, inr, Option-cases,
  Bool-cases,
}
use acp_mux.Base.Map
use acp_mux.Jsonrpc.{IncomingResponse, IncomingRequest, Result, response}
use acp_mux.Jsonrpc.Write.{to_value}
use acp_mux.Host.{Host}
use acp_mux.Core.{Subscriber, ReplayEntry, MuxCore}
use acp_mux.Core.Send.{send_to, send_response, send_result_response, send_error_response}
use acp_mux.Extension.{Mux, MuxExtension, over_core}
use acp_mux.Mux.Attach.{
  AttachError, attach, detach, replay, is_gone, insert_subscriber, replay_snapshot,
}
use acp_mux.Mux.Local.{handle_attach_request, handle_detach_request, is_foreign, resolve_session_id}
use acp_mux.Mux.State.{KeepsState}
use acp_mux.Attach.{attach_params, detach_session_id}

pub response_flight :
    (h : Host) (peer : String) (r : IncomingResponse) (c : MuxCore)
    → (send_response h peer r c).prompt_in_flight ≡ c.prompt_in_flight
unfolding send_response send_to
response_flight h peer r c = elim (Option-cases (h.to_vec (to_value (response r)))) [
  | inl e ↦ rw (e, send_response) refl
  | inr (bytes, e) ↦ rw (e, send_response) refl
]

module _ (h : Host) {E : Type 0} (x : MuxExtension E) {W P : Mux E → Type 0}
    (k : KeepsState x W P) where
  pub replay_keeps :
      (peer : String) (es : List ReplayEntry) (m : Mux E) → P m → P (replay x peer es m)
  unfolding replay send_to
  replay_keeps peer [] m p = p
  replay_keeps peer (e ∷ es) m p =
      let r = x.replay_frame m e in
      let first : P r.0 = k.replay m e p in
      elim (Option-cases r.1) [
        | inl skip ↦ rw (skip, replay) (replay_keeps peer es r.0 first)
        | inr (bytes, sent) ↦
            rw (sent, replay)
              (elim (Bool-cases (is_gone (Map.get peer r.0.core.subscribers))) [
                | inl gone ↦ rw gone first
                | inr open_ ↦ rw open_ (
                    replay_keeps peer es (over_core (send_to peer bytes) r.0)
                      (k.aside r.0 _ refl first))
              ])
      ]

  pub attach_keeps : (s : Subscriber) (m : Mux E) → P m → P (attach x s m).0
  unfolding attach
  attach_keeps s m p =
      let announced = x.on_subscriber_attaching m s in
      let inserted = over_core (insert_subscriber s) announced in
      if_case (λ (r : Mux E × Result AttachError (Unit {0})). P r.0)
        (is_some (Map.get s.peer_id m.core.subscribers)) p
        (replay_keeps s.peer_id (replay_snapshot s.suppress_legacy_replay m.core.replay_log) _ (
          k.subscriber_attached inserted s.peer_id (
            k.aside announced (insert_subscriber s announced.core) refl
              (k.subscriber_attaching m s p))))

  pub detach_keeps : (peer : String) (m : Mux E) → P m → P (detach x peer m)
  unfolding detach
  detach_keeps peer m p =
      if_case P (is_some (Map.get peer m.core.subscribers))
        (k.subscriber_detached _ peer (k.aside m _ refl p)) p

  pub handle_attach_keeps :
      (peer : String) (req : IncomingRequest) (m : Mux E)
      → P m
      → P (handle_attach_request h x peer req m)
  unfolding handle_attach_request send_error_response send_result_response
  handle_attach_keeps peer req m p =
      let params = attach_params req.params in
      if_case P (is_foreign m.core params.session_id (resolve_session_id m.core params.session_id))
        (k.aside m _ (response_flight h peer _ m.core) p)
        (k.aside _ _ (response_flight h peer _ _) (k.attach m peer params _ p))

  pub handle_detach_keeps :
      (peer : String) (req : IncomingRequest) (m : Mux E)
      → P m
      → P (handle_detach_request h x peer req m)
  unfolding handle_detach_request send_error_response send_result_response
  handle_detach_keeps peer req m p =
      if_case P (is_foreign m.core (detach_session_id req.params) (resolve_session_id m.core none))
        (k.aside m _ (response_flight h peer _ m.core) p)
        (detach_keeps peer _ (k.aside m _ (response_flight h peer _ m.core) p))
