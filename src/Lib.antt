-- ===== src/Lib.antt =====
-- acp-mux: a multiplexer that lets several WebSocket subscribers share one agent subprocess that
-- speaks JSON-RPC (the Agent Client Protocol).
--
-- The program's parts. Each mux is an actor (`run_mux`, crates/acp-mux/src/mux/actor.rs) that owns
-- a `MuxCore` and an extension. It takes one message at a time from a channel: frames of
-- subscribers, lines of the agent, joins and leaves, wakes of the extension. A subscriber's request
-- is renumbered, entered in `pending`, and put in the outbox for the agent's stdin; the agent's
-- response is given its old id and sent back to the peer that asked. The agent's own requests and
-- notifications go to every subscriber; of the replies to such a request the first goes to the
-- agent. Notifications are recorded in a replay log, in memory and on disk, which a newcomer is
-- sent. An extension sees each of these events by a hook and changes the core only by the
-- operations of `MuxCtx`. A registry maps the ids of muxes to their actors: a WebSocket connection
-- names a mux, and the registry joins it to the actor of that mux, or spawns an agent and an actor
-- for it.
--
-- The files.
-- - Json: JSON values as serde_json holds them. Jsonrpc, Jsonrpc/Write:
--   crates/acp-mux/src/jsonrpc.rs, the reading of a frame from a value (`Incoming::from_value`) and
--   its writing.
-- - Attach: crates/acp-mux/src/attach.rs, the data of `session/attach` and `session/detach`.
-- - Policy: crates/acp-mux/src/cli.rs, the policy for client-tool requests.
-- - Text: what the sources use of Rust's texts: decimals, `trim`.
-- - Host: what comes from outside the source: the reader and printer of serde_json, the clock, the
--   disk, UTF-8.
-- - Core: the state of actor.rs, with subscriber.rs and the records of replay_store.rs. Core/Send:
--   what the core sends and records. Core/New: `MuxCore::new` and the hydration from disk.
-- - Extension: crates/acp-mux/src/extension.rs, the hooks as a record. Extension/Ctx: the
--   operations of `MuxCtx` as a step relation; `KeepsToCtx` says that every hook is a sequence of
--   them, which holds of any extension by the privacy of `MuxCore`. Extension/Untouched: the parts
--   of the state that such steps leave as they are.
-- - Mux/Attach, Mux/Session, Mux/Local, Mux/Inbound, Mux/Agent: the handlers of actor.rs, one
--   function for each. Mux/Run: the actor's loop.
-- - Mux/Snapshot: the snapshot of actor.rs for the debug page.
-- - Registry: crates/acp-mux/src/mux/registry.rs, the map of the muxes and `attach`, from one wait
--   to the next. Registry/Calls: calls and actors beside one another. Registry/Names,
--   Registry/OneActor, Registry/Handles, Registry/Advance, Registry/Answers, Registry/Reached:
--   what holds of them. Registry/ControlPlane: the question to a transient agent,
--   on whose reads `request_transient_agent` waits. Registry/Snapshots: `snapshot`.
-- - Server: crates/acp-mux/src/server.rs, a connection from its query to its end, with the tasks
--   that read and write the socket. Server/Queries, Server/Inbound: what it accepts and hands on.
--   Server/Pages: the plain HTTP routes.
-- - ReplayStore: crates/acp-mux/src/replay_store.rs, the file of a mux as bytes.
--   ReplayStore/Reload: a file that was appended to, read again.
-- - Agent: crates/acp-mux/src/agent/process.rs, the framing of lines on the agent's pipes; the split of
--   a stream at its line feeds is tokio's `read_until`, a parameter.
-- - Cli, Cli/Numbers, AgentConfig: crates/acp-mux/src/cli.rs and agent_config.rs, the values that
--   the program reads itself and the choice of an agent. Main: main.rs of both crates, up to the
--   registry that is served.
-- - Calendar, Calendar/Stamp: `civil_from_days` of actor.rs and the printing of a time stamp.
--   Calendar/Gregorian: the calendar that the dates are compared with.
-- - Rooms: the state of the Rooms extension, crates/rooms/src/extension/mod.rs, an extension of the
--   mux that numbers turns, queues prompts, steers them and keeps segments of the transcript.
--   Rooms/Frames: protocol/rooms.rs, every frame that it sends. Rooms/Metadata: `object_field` of
--   mod.rs and the trace metadata of queue.rs. Rooms/Presence: extension/presence.rs. Rooms/Turns:
--   extension/turns.rs. Rooms/Refusal, Rooms/Control, Rooms/Queue, Rooms/Steer: extension/queue.rs,
--   the checks of a request, the queue and the steering, with `cancel_active_turn` of mod.rs.
--   Rooms/Segments: extension/segments.rs. Rooms/Views, Rooms/Views/Groups, Rooms/Views/Phases:
--   extension/attach_views.rs, with the payloads of wakes of mod.rs. Rooms/Joined: `on_attach`.
--   Rooms/Hooks: the other hooks of mod.rs, and the extension `rooms` that they make up, which the
--   mux runs as it runs any other. Rooms/Debug: `debug_snapshot`. Rooms/Registry:
--   crates/rooms/src/room/registry.rs. Rooms/Server: crates/rooms/src/server.rs, where it differs
--   from the server of the mux.
-- - Mux/Steps and below: each handler as a sequence of few elementary steps on the core, and from
--   it one rule of induction over runs for each part of the state.
-- - Mux/State and below: the same handlers once more, for properties of the core and the extension
--   together that hold between the messages of the actor.
-- - Rooms/Steps and below: each hook of the Rooms extension as a sequence of few elementary steps
--   of a room and of operations of `MuxCtx`, and rules of induction over the runs of a room.
-- - Mux/Proofs, Rooms/Proofs, Jsonrpc/RoundTrip, Rooms/Segments/Lineage and Tags: the theorems.
--   Tests and below: a host, an actor and runs on which the theorems are applied.
--
-- How the code corresponds. A `HashMap` is an association list, whose order stands for the
-- unspecified order of iteration. A method with `&mut self` is a function to the new state. A
-- channel to a subscriber is `Outbound`: whether its receiver is gone, and what was sent. In a run a
-- receiver stays as it was when its subscriber attached: no event closes it. The
-- agent's stdin is the list of the frames that it has accepted; an event carries the number of
-- writes that succeed before one fails. The order of events in a run stands for the order in which
-- the channel and the timer are served, so a theorem on every run is one on every interleaving.
-- Times and the success of writes to disk are functions of the sequence number of the frame that
-- they belong to. Unsigned numbers are natural numbers with the saturating additions of the source,
-- and the cast of a mux id to `i64` is written out. `to_vec` that fails is the empty frame where
-- the source takes one, and also where the source expects that it does not fail.
--
-- The index of sessions is shared by the rooms of a server behind a lock; a room's state holds it
-- as it stands when a hook of the room is called. The delay of a wake is in milliseconds. The
-- refusals of a request of the `rooms/` namespace are the errors of a checker, which the handler
-- sends.
--
-- A handle of a mux is the place of its actor's task among those ever spawned, so that clones of a
-- handle name one task. What runs under the lock of the registry is one step, the spawn included;
-- every wait outside the lock is a place where other calls and the actors go on. A task lives on
-- while its agent is shut down, which is when messages to it are taken and never answered.
--
-- Bounds. `decimal` runs on twenty rounds, one for each digit of a number of 64 bits; `await_reply`
-- runs on the 128 rounds of its source; no other definition runs on fuel: each recursion is on a
-- list, a text or a run's events. Theorems that need fresh numbers say that the counter has not yet
-- reached its 64-bit maximum, where it saturates, or wraps in a release build.
--
-- Not modelled: log messages; the threads of tokio below the actors, sockets, pipes and processes,
-- clap, TOML and the disk, whose effects are events and parameters; HTTP routing;
-- crates/rooms/src/protocol/attach.rs, shapes that no code uses; the mock agents, which are test
-- programs.
pub mod Base
pub mod Json
pub mod Jsonrpc
pub mod Text
pub mod Host
pub mod Policy
pub mod Attach
pub mod Core
pub mod Extension
pub mod Mux
pub mod Registry
pub mod Server
pub mod ReplayStore
pub mod Agent
pub mod Cli
pub mod AgentConfig
pub mod Calendar
pub mod Rooms
pub mod Main
pub mod Tests
