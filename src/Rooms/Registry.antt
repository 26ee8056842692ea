-- ===== src/Rooms/Registry.antt =====
-- crates/rooms/src/room/registry.rs: the registry of rooms, a registry of muxes whose extensions are
-- rooms. All of them share the index of sessions, which the factory hands on as it then stands.
use acp_mux.Base.{ℕ, String, Bool, true, false, Option, none}
use acp_mux.Host.{Host}
use acp_mux.Policy.{ClientToolPolicy, block_by_default}
use acp_mux.Core.{Subscriber}
use acp_mux.Core.New.{ReplayTurns}
use acp_mux.Registry.{
  AgentCmd, MuxRegistry, World, Stage, Surroundings, with_extension_and_replay_store,
  attach as attach_mux, shutdown as shutdown_muxes, live_mux_count,
}
use acp_mux.Registry.ControlPlane.{
  AgentProcess, Reply, list_sessions_control_plane as list_sessions,
}
use acp_mux.Rooms.{RoomsExtension, SessionListIndex, new_rooms}
use acp_mux.Rooms.Hooks.{rooms}

abbrev pub RoomRegistry : Type 0
RoomRegistry = MuxRegistry SessionListIndex RoomsExtension

unfoldable pub new_full :
    Option AgentCmd
    → ReplayTurns
    → ℕ
    → Bool
    → ClientToolPolicy
    → Bool
    → Option String
    → RoomRegistry
unfolding with_extension_and_replay_store
new_full cmd policy ttl meta_propagate tools emit_segment_frames store =
    with_extension_and_replay_store cmd policy ttl tools store (
      new_rooms
        (record { meta_propagate = meta_propagate; emit_segment_frames = emit_segment_frames }))

unfoldable pub new_with_replay_store :
    Option AgentCmd
    → ReplayTurns
    → ℕ
    → Bool
    → ClientToolPolicy
    → Bool
    → Option String
    → RoomRegistry
unfolding new_full
new_with_replay_store cmd policy ttl meta_propagate tools emit_segment_frames store =
    new_full cmd policy ttl meta_propagate tools emit_segment_frames store

unfoldable pub new_with_options :
    Option AgentCmd → ReplayTurns → ℕ → Bool → ClientToolPolicy → Bool → RoomRegistry
unfolding new_with_replay_store
new_with_options cmd policy ttl meta_propagate tools emit_segment_frames =
    new_with_replay_store cmd policy ttl meta_propagate tools emit_segment_frames none

unfoldable pub new_with_client_tool_policy :
    Option AgentCmd → ReplayTurns → ℕ → Bool → ClientToolPolicy → RoomRegistry
unfolding new_with_options
new_with_client_tool_policy cmd policy ttl meta_propagate tools =
    new_with_options cmd policy ttl meta_propagate tools true

unfoldable pub new_with_meta_propagation : Option AgentCmd → ReplayTurns → ℕ → Bool → RoomRegistry
unfolding new_with_client_tool_policy
new_with_meta_propagation cmd policy ttl meta_propagate =
    new_with_client_tool_policy cmd policy ttl meta_propagate block_by_default

unfoldable pub new : Option AgentCmd → ReplayTurns → ℕ → RoomRegistry
unfolding new_with_client_tool_policy
new cmd policy ttl = new_with_client_tool_policy cmd policy ttl false block_by_default

abbrev pub Rooms : Type 0
Rooms = World SessionListIndex RoomsExtension

unfoldable pub attach :
    Host → Surroundings SessionListIndex → ℕ → String → Subscriber → Stage → Rooms → Rooms × Stage
attach h around writes id s stage w = attach_mux h (rooms h) around writes id s stage w

unfoldable pub shutdown : Rooms → Rooms
shutdown w = shutdown_muxes w

unfoldable pub live_session_count : Rooms → ℕ
live_session_count w = live_mux_count w

unfoldable pub list_sessions_control_plane :
    Host → Option AgentCmd → Option AgentProcess → Option String → Reply
list_sessions_control_plane h cmd spawned cwd = list_sessions h cmd spawned cwd
