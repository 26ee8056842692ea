-- ===== src/Registry.antt =====
-- crates/acp-mux/src/mux/registry.rs: the registry of the muxes and the steps of its `attach`. A
-- handle is the place of its actor's task among those that were ever spawned, so clones of a handle
-- name one task.
pub mod ControlPlane
pub mod Calls
pub mod Names
pub mod OneActor
pub mod Reached
pub mod Handles
pub mod Snapshots
pub mod Advance
pub mod Answers
use acp_mux.Base.{
  ℕ, String, Bool, true, false, not, List, [], ◌∷◌, ◌++◌, Option, none, some, if◌then◌else◌, length,
  get_elem?, set, eq_text, unwrap_or, map_some, filter_map,
}
use acp_mux.Base.Map
use acp_mux.Host.{Host}
use acp_mux.Jsonrpc.{Result, ok, err}
use acp_mux.Policy.{ClientToolPolicy}
use acp_mux.Core.{Subscriber, RoomReplayStore}
use acp_mux.Core.New.{ReplayTurns, MuxOptions}
use acp_mux.Extension.{MuxExtension, noop}
use acp_mux.Mux.Attach.{AttachError, attach as attach_mux}
use acp_mux.Mux.Run.{Actor, Event, Status, running, message, attaches, start, step}

pub record AgentCmd : Type 0 where
  pub program : String
  pub args : List String
  pub env : List (String × String)

pub data RegistryError : Type 0 where
  agent_cmd_missing peer_id_in_use agent_spawn actor_unreachable : RegistryError

-- The task that runs an actor. Its receiver lives until `run_mux` returns, which is after the agent
-- has been shut down.
pub record Task (E : Type 0) : Type 0 where
  pub mux_id : String
  pub actor : Actor E
  pub returned : Bool

abbrev pub MuxHandle : Type 0
MuxHandle = ℕ

-- `replay_store` is the directory of the store. The factory of extensions may read what it shares
-- with its earlier extensions, a value of `F`.
pub record MuxRegistry (F E : Type 0) : Type 0 where
  pub agent_cmd : Option AgentCmd
  pub replay_policy : ReplayTurns
  pub mux_ttl : ℕ
  pub client_tool_policy : ClientToolPolicy
  pub replay_store : Option String
  pub extension_factory : F → E
  pub muxes : List (String × MuxHandle)

-- What a spawn finds outside: whether the agent's process starts, the current directory, the records
-- that opening the store of this mux reads, and what the factory shares.
pub record Surroundings (F : Type 0) : Type 0 where
  pub agent_starts : Bool
  pub current_dir : Option String
  pub opened : Option RoomReplayStore
  pub shared : F

pub record World (F E : Type 0) : Type 0 where
  pub registry : MuxRegistry F E
  pub tasks : List (Task E)

abbrev pub is_live : {E : Type 0} → Option (Task E) → Bool
is_live none = false
is_live (some t) = not t.returned

module _ {F E : Type 0} where
  unfoldable pub with_extension_and_replay_store :
      Option AgentCmd
      → ReplayTurns
      → ℕ
      → ClientToolPolicy
      → Option String
      → (F → E)
      → MuxRegistry F E
  with_extension_and_replay_store cmd policy ttl tools store factory = record {
    agent_cmd = cmd;
    replay_policy = policy;
    mux_ttl = ttl;
    client_tool_policy = tools;
    replay_store = store;
    extension_factory = factory;
    muxes = [];
  }

  unfoldable pub with_extension :
      Option AgentCmd → ReplayTurns → ℕ → ClientToolPolicy → (F → E) → MuxRegistry F E
  with_extension cmd policy ttl tools factory =
      with_extension_and_replay_store cmd policy ttl tools none factory

  abbrev pub over_muxes :
      (List (String × MuxHandle) → List (String × MuxHandle)) → World F E → World F E
  over_muxes f w = record w { registry = record w.registry { muxes = f w.registry.muxes } }

  -- `MuxHandle::is_alive`.
  unfoldable pub is_alive : World F E → MuxHandle → Bool
  is_alive w handle = is_live (get_elem? w.tasks handle)

  -- One locked reading of the map: a dead entry is taken out.
  unfoldable pub look_up : String → World F E → World F E × Option MuxHandle
  look_up id w = elim (Map.get id w.registry.muxes) [
    | none ↦ (w, none)
    | some handle ↦
        if is_alive w handle then (w, some handle) else (over_muxes (Map.remove id) w, none)
  ]

  unfoldable pub mux_options : MuxRegistry F E → Surroundings F → MuxOptions
  mux_options r around = record {
    replay_policy = r.replay_policy;
    mux_ttl = r.mux_ttl;
    client_tool_policy = r.client_tool_policy;
    agent_cwd = unwrap_or around.current_dir "";
    replay_store = map_some (λ dir. around.opened) r.replay_store;
  }

  unfoldable pub shutdown : World F E → World F E
  shutdown w = over_muxes (λ m. []) w

  abbrev pub alive_entries : World F E → List (String × MuxHandle) → List (String × MuxHandle)
  alive_entries w =
      filter_map (λ (entry : String × MuxHandle). if is_alive w entry.1 then some entry else none)

  unfoldable pub live_mux_count : World F E → ℕ
  live_mux_count w = length (alive_entries w w.registry.muxes)

unfoldable pub new : Option AgentCmd → ReplayTurns → ℕ → ClientToolPolicy → MuxRegistry Unit Unit
new cmd policy ttl tools = with_extension cmd policy ttl tools (λ u. tt)

-- Where a call of `attach` stands: before its first look at the map, before its second, waiting for
-- the actor's answer, or returned.
pub data Stage : Type 0 where
  entering spawning : Stage
  joining : MuxHandle → Stage
  returned : Result RegistryError MuxHandle → Stage

abbrev pub joined : MuxHandle → Result AttachError (Unit {0}) → Stage
joined handle (ok u) = returned (ok handle)
joined handle (err e) = returned (err peer_id_in_use)

abbrev pub step_task : Host → {E : Type 0} → MuxExtension E → Event → Task E → Task E
step_task h x e t = record t { actor = step h x t.actor e }

abbrev pub or_join :
    {F E : Type 0}
    → World F E × Option MuxHandle
    → (World F E → World F E × Stage)
    → World F E × Stage
or_join (w, none) k = k w
or_join (w, some handle) k = (w, joining handle)

module _ (h : Host) {F E : Type 0} (x : MuxExtension E) where
  -- `spawn_mux_with_extension`: a task for a new actor.
  unfoldable pub spawn_mux : Surroundings F → String → Subscriber → World F E → Task E
  spawn_mux around id s w = record {
    mux_id = id;
    actor =
        start h x id (mux_options w.registry around) (w.registry.extension_factory around.shared) s;
    returned = false;
  }

  unfoldable pub spawn_locked : Surroundings F → String → Subscriber → World F E → World F E × Stage
  unfolding spawn_mux
  spawn_locked around id s w = elim w.registry.agent_cmd [
    | none ↦ (w, returned (err agent_cmd_missing))
    | some cmd ↦
        if around.agent_starts
        then (
          over_muxes (Map.insert id (length w.tasks))
              (record w { tasks = w.tasks ++ spawn_mux around id s w ∷ [] }),
          returned (ok (length w.tasks)),
        )
        else (w, returned (err agent_spawn))
  ]

  -- The actor's answer. A task that has returned drops the message, or cannot be sent it; one that is
  -- shutting its agent down leaves the call waiting. `writes` is what the agent's stdin takes.
  unfoldable pub try_join : ℕ → MuxHandle → Subscriber → World F E → World F E × Stage
  try_join writes handle s w = elim (get_elem? w.tasks handle) [
    | none ↦ (w, returned (err actor_unreachable))
    | some t ↦ if t.returned then (w, returned (err actor_unreachable)) else elim t.actor.status [
      | running ↦ (
        record w { tasks = set w.tasks handle (step_task h x (message (attaches s) writes) t) },
        joined handle (attach_mux x s t.actor.mux).1,
      )
      | _ ↦ (w, joining handle)
    ]
  ]

  -- `attach` from one wait to the next. The map stays locked over the spawn.
  unfoldable pub attach :
      Surroundings F → ℕ → String → Subscriber → Stage → World F E → World F E × Stage
  unfolding look_up spawn_locked try_join
  attach around writes id s entering w = or_join (look_up id w) (λ w'. (w', spawning))
  attach around writes id s spawning w = or_join (look_up id w) (spawn_locked around id s)
  attach around writes id s (joining handle) w = try_join writes handle s w
  attach around writes id s (returned r) w = (w, returned r)
