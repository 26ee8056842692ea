-- ===== src/Core/New.antt =====
-- crates/acp-mux/src/mux/actor.rs: `MuxCore::new` and `hydrate_replay_store`.
use acp_mux.Base.{ℕ, String, List, [], ◌∷◌, Option, none, some, map, max, saturating_suc}
use acp_mux.Host.{Host, to_vec_or_empty}
use acp_mux.Policy.{ClientToolPolicy}
use acp_mux.Core.{ReplayEntry, PersistedFrame, RoomReplayStore, MuxCore}

pub data ReplayTurns : Type 0 where
  disabled unbounded : ReplayTurns
  bounded : ℕ → ReplayTurns

-- `replay_store` is what opening the store for this mux gives: no store, a failure (the inner none),
-- or the records of its file.
pub record MuxOptions : Type 0 where
  pub replay_policy : ReplayTurns
  pub mux_ttl : ℕ
  pub client_tool_policy : ClientToolPolicy
  pub agent_cwd : String
  pub replay_store : Option (Option RoomReplayStore)

abbrev pub Hydrated : Type 0
Hydrated = Option (List ReplayEntry) × Option RoomReplayStore × ℕ

unfoldable pub max_seq : List PersistedFrame → ℕ
max_seq [] = 0
max_seq (r ∷ rs) = max r.seq (max_seq rs)

module _ (h : Host) where
  unfoldable pub entry_of_record : PersistedFrame → ReplayEntry
  entry_of_record r = record {
    frame = to_vec_or_empty h r.frame;
    recorded_at = r.recorded_at;
    seq = r.seq;
    ext_tag = r.segment_id;
  }

  unfoldable pub hydrate_replay_store : Option (Option RoomReplayStore) → Hydrated
  hydrate_replay_store none = (some [], none, 1)
  hydrate_replay_store (some none) = (some [], none, 1)
  hydrate_replay_store (some (some loaded)) =
      (some (map entry_of_record loaded), some loaded, saturating_suc (max_seq loaded))

  -- A bound is accepted and not implemented: the log is unbounded.
  unfoldable pub replay_state : ReplayTurns → Option (Option RoomReplayStore) → Hydrated
  unfolding hydrate_replay_store
  replay_state disabled store = (none, none, 1)
  replay_state unbounded store = hydrate_replay_store store
  replay_state (bounded n) store = hydrate_replay_store store

  unfoldable pub new_core : String → MuxOptions → MuxCore
  new_core mux_id options =
      let replay = replay_state options.replay_policy options.replay_store in
      record {
        mux_id = mux_id;
        agent_cwd = options.agent_cwd;
        subscribers = [];
        next_mux_id = 1;
        pending = [];
        initialize_cache = none;
        session_new_cache = none;
        canonical_session_id = none;
        replay_log = replay.0;
        replay_store = replay.1;
        next_replay_seq = replay.2;
        replay_tag = 0;
        prompt_in_flight = none;
        client_tool_policy = options.client_tool_policy;
        agent_pending = [];
        pending_permissions = [];
        agent_outbox = [];
        wakes = [];
      }
