-- ===== src/Mux/Local.antt =====
-- crates/acp-mux/src/mux/actor.rs: `session/attach` and `session/detach`, which the mux answers itself.
use acp_mux.Base.{
  String, Bool, false, List, [], ◌∷◌, Option, none, some, if◌then◌else◌, eq_text, unwrap_or,
  or_else, not, ◌&&◌, ◌==◌, map_some, filter_map, and_then,
}
use acp_mux.Json.{Value, obj, get_key, as_str, end}
use acp_mux.Jsonrpc.{RequestId, IncomingRequest}
use acp_mux.Host.{Host, Bytes}
use acp_mux.Core.{Subscriber, ReplayEntry, MuxCore}
use acp_mux.Core.Send.{send_result_response, send_error_response}
use acp_mux.Attach.{
  HistoryPolicy, AttachParams, AttachResult, ConnectedClient, HistoryEntry, attach_params,
  detach_session_id, attach_result_to_value, detach_result_to_value, attach_err_not_found,
}
use acp_mux.Extension.{Mux, MuxExtension, over_core}
use acp_mux.Mux.Attach.{detach}

-- `after_message` is not implemented: the full history is given.
abbrev pub effective_policy : Option HistoryPolicy → HistoryPolicy
effective_policy none = HistoryPolicy.full
effective_policy (some HistoryPolicy.after_message) = HistoryPolicy.full
effective_policy (some other) = other

abbrev pub non_empty : Option String → Option String
non_empty none = none
non_empty (some s) = if s == "" then none else some s

-- The canonical id, else the requested one, else the mux id.
unfoldable pub resolve_session_id : MuxCore → Option String → String
resolve_session_id c requested =
    unwrap_or (or_else c.canonical_session_id (non_empty requested)) c.mux_id

-- A requested id is refused if it is neither the resolved id nor the mux id.
unfoldable pub is_foreign : MuxCore → Option String → String → Bool
is_foreign c none resolved = false
is_foreign c (some requested) resolved =
    not (requested == "") && (not (requested == resolved) && not (requested == c.mux_id))

unfoldable pub connected_clients : List (String × Subscriber) → List ConnectedClient
connected_clients [] = []
connected_clients ((k, s) ∷ subs) =
    record { client_id = s.peer_id; name = s.peer_name } ∷ connected_clients subs

abbrev pub history_entry_of_value : Value → Option HistoryEntry
history_entry_of_value (obj fs) =
    map_some (λ m. record { method = m; params = get_key "params" fs })
      (and_then (get_key "method" fs) as_str)
history_entry_of_value _ = none

module _ (h : Host) where
  unfoldable pub history_entry_from_frame : Bytes → Option HistoryEntry
  history_entry_from_frame bytes = and_then (h.from_slice bytes) history_entry_of_value

  unfoldable pub history_full : MuxCore → List HistoryEntry
  history_full c =
      filter_map (λ (e : ReplayEntry). history_entry_from_frame e.frame) (unwrap_or c.replay_log [])

  unfoldable pub history_pending_only : MuxCore → List HistoryEntry
  history_pending_only c =
      filter_map (λ (p : RequestId × Bytes). history_entry_from_frame p.1) c.pending_permissions

  unfoldable pub history_for : HistoryPolicy → MuxCore → Option (List HistoryEntry)
  history_for HistoryPolicy.none c = none
  history_for HistoryPolicy.pending_only c = some (history_pending_only c)
  history_for HistoryPolicy.full c = some (history_full c)
  history_for HistoryPolicy.full_lineage c = some (history_full c)
  history_for HistoryPolicy.after_message c = some (history_full c)

  unfoldable pub attach_result : MuxCore → String → AttachParams → AttachResult
  attach_result c peer params = record {
    session_id = resolve_session_id c params.session_id;
    client_id = unwrap_or params.client_id peer;
    connected_clients = connected_clients c.subscribers;
    history_policy = effective_policy params.history_policy;
    history = history_for (effective_policy params.history_policy) c;
    extra = end;
  }

  module _ {E : Type 0} (x : MuxExtension E) where
    unfoldable pub handle_attach_request : String → IncomingRequest → Mux E → Mux E
    unfolding attach_result
    handle_attach_request peer req m =
        let params = attach_params req.params in
        if is_foreign m.core params.session_id (resolve_session_id m.core params.session_id)
        then over_core (send_error_response h peer req.id attach_err_not_found "session not found")
            m
        else let r = x.on_attach m peer params (attach_result m.core peer params) in
          over_core (send_result_response h peer req.id (attach_result_to_value r.1)) r.0

    unfoldable pub handle_detach_request : String → IncomingRequest → Mux E → Mux E
    handle_detach_request peer req m =
        let requested = detach_session_id req.params in
        let resolved = resolve_session_id m.core none in
        if is_foreign m.core requested resolved
        then over_core (send_error_response h peer req.id attach_err_not_found "session not found")
            m
        else detach x peer
            (over_core (send_result_response h peer req.id (detach_result_to_value resolved)) m)
