-- ===== src/Server/Pages.antt =====
-- crates/acp-mux/src/server.rs: the answers of the plain HTTP routes.
use acp_mux.Base.{ℕ, String, Bool, Option, none, some, length}
use acp_mux.Json.{Value, str, arr, obj, end, field}
use acp_mux.Attach.{items_of}
use acp_mux.Host.{Host}
use acp_mux.Jsonrpc.{ok, err}
use acp_mux.Jsonrpc.Write.{opt_field}
use acp_mux.Extension.{Mux}
use acp_mux.Mux.Snapshot.{snapshot_to_value, count}
use acp_mux.Registry.{World, MuxHandle, AgentCmd}
use acp_mux.Registry.Snapshots.{snapshot}
use acp_mux.Registry.ControlPlane.{
  ControlPlaneSessionListError, agent_cmd_missing, Reply, AgentProcess, list_sessions_control_plane,
}

pub record Page : Type 0 where
  pub status : ℕ
  pub body : Value

abbrev pub healthz : String
healthz = "ok\n"

unfoldable pub debug_sessions :
    {F E : Type 0} → (Mux E → Value) → (MuxHandle → Bool) → World F E → Value
debug_sessions debug_snapshot in_time w =
    let muxes = snapshot debug_snapshot in_time w in
    obj
      (field "muxes" (arr (items_of snapshot_to_value muxes)) (count "muxCount" (length muxes) end))

abbrev pub error_page : ℕ → String → Option Value → Page
error_page status error details = record {
  status = status;
  body = obj (field "error" (str error) (opt_field "details" details end));
}

-- `shown` prints an error.
unfoldable pub control_plane_error_response :
    (ControlPlaneSessionListError → String) → ControlPlaneSessionListError → Page
control_plane_error_response shown agent_cmd_missing =
    error_page 503 "agent command not configured" none
control_plane_error_response shown e =
    error_page 502 "agent session/list failed" (some (str (shown e)))

abbrev pub sessions_page : (ControlPlaneSessionListError → String) → Reply → Page
sessions_page shown (ok v) = record { status = 200; body = v }
sessions_page shown (err e) = control_plane_error_response shown e

unfoldable pub acp_sessions :
    Host
    → (ControlPlaneSessionListError → String)
    → Option AgentCmd
    → Option AgentProcess
    → Option String
    → Page
acp_sessions h shown cmd spawned cwd =
    sessions_page shown (list_sessions_control_plane h cmd spawned cwd)
