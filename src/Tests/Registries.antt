-- ===== src/Tests/Registries.antt =====
-- The theorems on the registry and on the question to a transient agent, at small inputs.
use acp_mux.Base.{
  ℕ, ◌≡◌, refl, true, false, List, [], ◌∷◌, none, some, pos, ◌==◌, eq_nat, if◌then◌else◌, get_elem?,
}
use acp_mux.Base.Map
use acp_mux.Jsonrpc.{ok}
use acp_mux.Core.New.{unbounded, new_core, replay_state}
use acp_mux.Policy.{block_by_default}
use acp_mux.Extension.{noop}
use acp_mux.Mux.Run.{start, step, select, receive, drain, handle_msg, sync_ttl}
use acp_mux.Mux.Attach.{attach as attach_mux, join, replay}
use acp_mux.Registry.{
  MuxRegistry, Surroundings, Task, attach, look_up, spawn_locked, spawn_mux, try_join, is_alive,
  mux_options, returned,
}
use acp_mux.Registry.Calls.{System, Call, Move, begins, goes_on, fresh, move, after}
use acp_mux.Registry.Answers.{calls_share_actor}
use acp_mux.Registry.Reached.{IsReached, Called, task-IsReached}
use acp_mux.Registry.ControlPlane.{
  AgentProcess, Received, line, closed, send, request-EndsAt, EndsAt, request_transient_agent,
}
use acp_mux.Tests.{host, alice, bob}

abbrev registry : MuxRegistry (Unit {0}) (Unit {0})
registry = record {
  agent_cmd = some (record { program = "agent"; args = []; env = [] });
  replay_policy = unbounded;
  mux_ttl = 60;
  client_tool_policy = block_by_default;
  replay_store = none;
  extension_factory = λ u. u;
  muxes = [];
}

abbrev around : Surroundings (Unit {0})
around = record { agent_starts = true; current_dir = some "/tmp"; opened = none; shared = tt }

-- Both calls find no mux, the first spawns it, and the second joins it.
abbrev racing : List (Move (Unit {0}))
racing =
    begins "m" alice
    ∷ begins "m" bob
    ∷ goes_on 0 around 9
    ∷ goes_on 1 around 9
    ∷ goes_on 0 around 9
    ∷ goes_on 1 around 9
    ∷ goes_on 1 around 9
    ∷ []

unfoldable end_of_race : System (Unit {0}) (Unit {0})
unfolding after move attach look_up spawn_locked spawn_mux try_join is_alive mux_options start step
    select receive drain handle_msg sync_ttl new_core replay_state attach_mux join replay Map.get
    Map.insert Map.remove
end_of_race = after host noop racing (fresh registry)

abbrev call_of : ℕ → Call
call_of k = record {
  mux_id = "m";
  subscriber = if k == 0 then alice else bob;
  stage = returned (ok 0);
}

first_answered : get_elem? end_of_race.calls 0 ≡ some (call_of 0)
unfolding end_of_race
first_answered = refl

second_answered : get_elem? end_of_race.calls 1 ≡ some (call_of 1)
unfolding end_of_race
second_answered = refl

actor_alive : is_alive end_of_race.world 0 ≡ true
unfolding end_of_race
actor_alive = refl

calls_share_actor_example : ◌≡◌ {A = ℕ} 0 0
unfolding end_of_race
calls_share_actor_example =
    calls_share_actor host noop registry racing 0 1 (call_of 0) (call_of 1) 0 0
      (tt, (tt, (tt, (tt, (tt, (tt, (tt, tt))))))) first_answered second_answered refl refl refl
      actor_alive actor_alive

abbrev spawned : Task (Unit {0})
spawned = record {
  mux_id = "m";
  actor = start host noop "m" (mux_options registry around) tt alice;
  returned = false;
}

-- Once the first call has spawned the mux.
abbrev spawning_alone : List (Move (Unit {0}))
spawning_alone = begins "m" alice ∷ goes_on 0 around 9 ∷ goes_on 0 around 9 ∷ []

task_there :
    get_elem? (after host noop spawning_alone (fresh registry)).world.tasks 0 ≡ some spawned
unfolding end_of_race
task_there = refl

task-IsReached_example : IsReached host noop registry (Called spawning_alone) spawned
task-IsReached_example = task-IsReached host noop registry spawning_alone 0 spawned task_there

-- An agent that writes a notification, then the response, then nothing.
abbrev talkative : ℕ → Received
talkative n = if n == 0 then line (3 ∷ []) else if n == 1 then line (5 ∷ []) else closed

abbrev agent : AgentProcess
agent = record { reads = talkative; read = 0; writable = 9; taken = [] }

abbrev asked : AgentProcess
asked = record { reads = talkative; read = 0; writable = 8; taken = (9 ∷ []) ∷ [] }

request_sent : send (9 ∷ []) agent ≡ some asked
unfolding send
request_sent = refl

request-EndsAt_example :
    EndsAt host
      (pos 1)
      "initialize"
      128
      asked
      (request_transient_agent host (pos 1) "initialize" none agent)
request-EndsAt_example =
    request-EndsAt host (pos 1) "initialize" none agent asked (9 ∷ []) refl request_sent
