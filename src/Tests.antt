-- ===== src/Tests.antt =====
-- A host, a mux and a few frames, on which the theorems are tried.
mod Requests
mod Registries
mod Servers
mod Stores
mod Transcripts
mod Wire
mod Dates
mod Rooms
mod RoomRuns
mod Views
use acp_mux.Base.{int_eq}
use acp_mux.Core.Send.{
  fanout, broadcast, record_frame, send_or_drop, send_all, send_one, send, send_to,
}
use acp_mux.Base.Map
use acp_mux.Mux.Session.{
  apply_successful_handshake, sweep_stale_agent_pending, sweep, stale_ids, consume, handshake_kind,
}
use acp_mux.Mux.Inbound.{
  handle_inbound, translate_outbound_request, dispatch_inbound, gate_subscriber_response,
  enter_request, sanitize, renumber,
}
use acp_mux.Mux.Agent.{
  handle_agent_line, handle_agent_request, route_agent_response, settle, complete_handshake,
  open_request, note_permission, handle_agent_notification,
}
use acp_mux.Mux.Attach.{attach, join, replay}
use acp_mux.Extension.{noop}
use acp_mux.Base.{
  ℕ, String, Bool, true, false, List, [], ◌∷◌, Option, none, some, if◌then◌else◌, ◌==◌, eq_nat, pos,
}
use acp_mux.Json.{Value, Fields, pos_int, num, str, bool, obj, end, field, get_key, get_field}
use acp_mux.Jsonrpc.{
  RequestId, text, number, IncomingResponse, IncomingRequest, from_value, classify,
  request_of_fields, response_of_fields, notification_of_fields, version_of, id_of_value, opt_value,
  opt_error, id_eq,
}
use acp_mux.Host.{Host, Bytes, parse, to_vec_or_empty}
use acp_mux.Policy.{block_by_default, mode_for_method}
use acp_mux.Core.{Subscriber, Outbound}
use acp_mux.Core.New.{MuxOptions, unbounded, new_core, replay_state}
use acp_mux.Mux.Run.{
  Event, message, inbound_from_subscriber, agent_stdout_line, attaches, run, Actor, start, step,
  select, receive, drain, handle_msg, sync_ttl,
}

-- A JSON-RPC object.
abbrev envelope : Fields → Value
envelope fs = obj (field "jsonrpc" (str "2.0") fs)

-- The frames of the tests, by their first byte.
abbrev read : Bytes → Option Value
read [] = none
read (b ∷ bs) =
    if b == 1
    then some (envelope (field "id" (str "perm-1") (field "result" (bool true) end)))
    else if b == 2
    then some (
        envelope
          (field "id" (str "perm-1") (field "method" (str "session/request_permission") end)))
    else if b == 3
    then some (envelope (field "method" (str "session/update") end))
    else if b == 4
    then some (envelope (field "id" (num (pos_int 10)) (field "method" (str "session/prompt") end)))
    else if b == 5
    then some (envelope (field "id" (num (pos_int 1)) (field "result" (bool true) end)))
    else if b == 6
    then some (envelope (field "id" (num (pos_int 7)) (field "method" (str "initialize") end)))
    else if b == 7
    then some (envelope (field "id" (num (pos_int 9)) (field "method" (str "session/new") end)))
    else none

abbrev host : Host
host = record {
  from_slice = read;
  to_vec = λ v. some (9 ∷ []);
  recorded_at = λ n. "2026-01-01T00:00:00Z";
  rotated_at = λ n. "2026-01-01T00:00:00Z";
  to_string = λ v. some "{}";
  as_bytes = λ s. 9 ∷ [];
  from_utf8 = λ b. some "{}";
  append_succeeds = λ n. true;
}

abbrev options : MuxOptions
options = record {
  replay_policy = unbounded;
  mux_ttl = 60;
  client_tool_policy = block_by_default;
  agent_cwd = "/tmp";
  replay_store = none;
}

abbrev peer_named : String → Subscriber
peer_named name = record {
  peer_id = name;
  peer_name = none;
  role = none;
  suppress_legacy_replay = false;
  outbound = record { closed = false; sent = [] };
}

abbrev alice : Subscriber
alice = peer_named "alice"

abbrev bob : Subscriber
bob = peer_named "bob"

abbrev from_alice : ℕ → Event
from_alice b = message (inbound_from_subscriber "alice" (b ∷ [])) 9

abbrev from_agent : ℕ → Event
from_agent b = message (agent_stdout_line (b ∷ [])) 9

-- The reply to the permission request, and the response to the first request.
abbrev approval : IncomingResponse
approval = record { id = text "perm-1"; result = some (bool true); error = none }

abbrev first_response : IncomingResponse
first_response = record { id = number (pos 1); result = some (bool true); error = none }

abbrev permission : IncomingRequest
permission = record { id = text "perm-1"; method = "session/request_permission"; params = none }

abbrev initialize : IncomingRequest
initialize = record { id = number (pos 8); method = "initialize"; params = none }

abbrev session_new : IncomingRequest
session_new = record { id = number (pos 8); method = "session/new"; params = none }

abbrev pub begin : Actor (Unit {0})
begin = start host noop "mux" options tt alice

-- What the actor becomes on these events.
unfoldable pub after : List Event → Actor (Unit {0})
unfolding run start new_core replay_state attach join replay step select receive drain handle_msg
    sync_ttl handle_agent_line handle_agent_request handle_inbound translate_outbound_request
    dispatch_inbound gate_subscriber_response route_agent_response settle complete_handshake
    apply_successful_handshake sweep_stale_agent_pending sweep stale_ids consume open_request
    note_permission mode_for_method parse to_vec_or_empty from_value classify get_key
    request_of_fields response_of_fields notification_of_fields version_of id_of_value opt_value
    opt_error id_eq Map.get Map.insert Map.remove fanout broadcast record_frame send_or_drop
    send_all handle_agent_notification send_one send send_to get_field enter_request sanitize
    renumber handshake_kind int_eq
after es = run host noop begin es
