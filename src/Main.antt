-- ===== src/Main.antt =====
-- crates/acp-mux/src/main.rs and crates/rooms/src/main.rs: from the options of the command line to the
-- registry that is served. Logging and listening are left out.
use acp_mux.Base.{ℕ, String, Bool, Option, none, some, if◌then◌else◌}
use acp_mux.Jsonrpc.{Result, ok, err}
use acp_mux.Core.New.{ReplayTurns}
use acp_mux.Registry.{AgentCmd, MuxRegistry, new}
use acp_mux.Rooms.Registry.{RoomRegistry, new_full}
use acp_mux.Cli.{LogLevel, client_tool_policy}
use acp_mux.AgentConfig.{Environment, ConfigError, list_agents_text, resolve_agent_cmd}

-- An address is the text that is parsed to it.
pub record Cli : Type 0 where
  pub host : String
  pub port : ℕ
  pub agent_cmd : Option String
  pub agent : Option String
  pub config : Option String
  pub list_agents : Bool
  pub ttl_seconds : ℕ
  pub replay_turns : ReplayTurns
  pub unsafe_debug_client_tool_broadcast : Bool
  pub log_level : LogLevel

-- The options of the Rooms server beside those of the mux.
pub record RoomsCli : Type 0 where
  pub common : Cli
  pub replay_store : Option String
  pub meta_propagate : Bool
  pub emit_segment_frames : Bool

-- What the program comes to: a text that it prints, an error that ends it, or a registry that it serves.
pub data Outcome (R : Type 0) : Type 0 where
  prints : String → Outcome R
  fails : ConfigError → Outcome R
  store_fails : String → Outcome R
  serves : R → Outcome R

abbrev pub printed : {R : Type 0} → Result ConfigError String → Outcome R
printed (ok text) = prints text
printed (err e) = fails e

abbrev pub with_agent :
    {R : Type 0} → Result ConfigError (Option AgentCmd) → (Option AgentCmd → Outcome R) → Outcome R
with_agent (ok cmd) serve = serve cmd
with_agent (err e) serve = fails e

abbrev pub chosen : Environment → Cli → Result ConfigError (Option AgentCmd)
chosen env cli = resolve_agent_cmd env cli.agent cli.agent_cmd cli.config

unfoldable pub main : Environment → Cli → Outcome (MuxRegistry (Unit {0}) (Unit {0}))
main env cli =
    if cli.list_agents
    then printed (list_agents_text env cli.config)
    else with_agent (chosen env cli) λ cmd. serves (
        new cmd cli.replay_turns cli.ttl_seconds
          (client_tool_policy cli.unsafe_debug_client_tool_broadcast))

-- `opens` is whether the directory of the store can be made.
unfoldable pub rooms_main : Environment → (String → Bool) → RoomsCli → Outcome RoomRegistry
rooms_main env opens cli =
    let registry = λ (cmd : Option AgentCmd).
      new_full cmd cli.common.replay_turns cli.common.ttl_seconds cli.meta_propagate
        (client_tool_policy cli.common.unsafe_debug_client_tool_broadcast) cli.emit_segment_frames
        cli.replay_store in
    if cli.common.list_agents
    then printed (list_agents_text env cli.common.config)
    else with_agent (chosen env cli.common) λ cmd. elim cli.replay_store [
      | none ↦ serves (registry cmd)
      | some dir ↦ if opens dir then serves (registry cmd) else store_fails dir
    ]
