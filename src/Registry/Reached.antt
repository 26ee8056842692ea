-- ===== src/Registry/Reached.antt =====
-- crates/acp-mux/src/mux/registry.rs: what the tasks of a registry run.
use acp_mux.Base.{
  String, List, [], ◌∷◌, ◌++◌, ℕ, ◌≡◌, refl, ap, sym, ◌∙◌, subst, Option, none, some, get_elem?,
  eq_text, length, set, get_elem?-set, get_elem?-append, inl, inr, option_case, if_case, suc,
  unwrap_or, map_some,
}
use acp_mux.Base.Map
use acp_mux.Host.{Host}
use acp_mux.Core.{Subscriber}
use acp_mux.Extension.{MuxExtension}
use acp_mux.Mux.Run.{
  start, Actor, Event, Status, running, ttl_expired, no_senders, agent_gone, write_failed, message,
  attaches, run, reach, step,
}
use acp_mux.Registry.{
  MuxHandle, MuxRegistry, World, Task, Stage, entering, spawning, joining, returned, Surroundings,
  attach, shutdown, look_up, spawn_locked, try_join, is_alive, over_muxes, spawn_mux, or_join,
  step_task, mux_options, MuxOptions,
}
use acp_mux.Registry.OneActor.{status_case}
use acp_mux.Registry.Calls.{
  System, Move, begins, goes_on, acts, returns, shuts_down, move, after, over_task, fresh,
  returned_if_done, resume, update, Call,
}

-- The settings of a registry, as the options of one of its muxes.
pub record IsSetBy {F E : Type 0} (r : MuxRegistry F E) (around : Surroundings F) (o : MuxOptions)
    : Type 0 where
  pub replay_policy : o.replay_policy ≡ r.replay_policy
  pub mux_ttl : o.mux_ttl ≡ r.mux_ttl
  pub client_tool_policy : o.client_tool_policy ≡ r.client_tool_policy
  pub agent_cwd : o.agent_cwd ≡ unwrap_or around.current_dir ""
  pub replay_store : o.replay_store ≡ map_some (λ dir. around.opened) r.replay_store

-- `asked` are the subscribers that have called for a mux.
module _ (h : Host) {F E : Type 0} (x : MuxExtension E) (r : MuxRegistry F E)
    (asked : String → Subscriber → Type 0) where
  -- An actor that was started under the settings of `r`, for this mux and a subscriber that has called
  -- for it, and then took events.
  pub data IsReached (t : Task E) : Type 0 where
    reached :
        (around : Surroundings F) (o : MuxOptions) (s : Subscriber) (es : List Event)
        → IsSetBy r around o
        → asked t.mux_id s
        → t.actor ≡ reach h x t.mux_id o (r.extension_factory around.shared) s es
        → IsReached t

  -- The settings of a registry stay; the tasks are such actors.
  data Grown (w : World F E) : Type 0 where
    grown :
        (m : List (String × MuxHandle))
        → w.registry ≡ record r { muxes = m }
        → ((i : ℕ) (t : Task E) → get_elem? w.tasks i ≡ some t → IsReached t)
        → Grown w

  tasks_of :
      (w : World F E) → Grown w → (i : ℕ) (t : Task E) → get_elem? w.tasks i ≡ some t → IsReached t
  tasks_of w (grown m e all) = all

  run-append :
      (a : Actor E) (es : List Event) (e : Event)
      → run h x a (es ++ e ∷ []) ≡ step h x (run h x a es) e
  unfolding run
  run-append a [] e = refl
  run-append a (d ∷ es) e = run-append (step h x a d) es e

  step_task-IsReached : (e : Event) (t : Task E) → IsReached t → IsReached (step_task h x e t)
  step_task-IsReached e t (reached around o s es under by is) =
      reached around o s (es ++ e ∷ []) under by
        (ap (λ (a : Actor E). step h x a e) is ∙ sym (run-append _ es e))

  returned_if_done-IsReached :
      (g : Status) (t : Task E) → IsReached t → IsReached (returned_if_done g t)
  returned_if_done-IsReached running t k = k
  returned_if_done-IsReached ttl_expired t (reached around o s es under by is) =
      reached around o s es under by is
  returned_if_done-IsReached no_senders t (reached around o s es under by is) =
      reached around o s es under by is
  returned_if_done-IsReached agent_gone t (reached around o s es under by is) =
      reached around o s es under by is
  returned_if_done-IsReached write_failed t (reached around o s es under by is) =
      reached around o s es under by is

  set-Grown :
      (i : ℕ) (u : Task E) (w : World F E)
      → IsReached u
      → Grown w
      → Grown (record w { tasks = set w.tasks i u })
  set-Grown i u w k (grown m e all) = grown m e λ j t at. elim (get_elem?-set w.tasks i j at) [
    | inl (here, is) ↦ subst IsReached (sym is) k
    | inr old ↦ all j t old
  ]

  over_task-Grown :
      (i : ℕ) (f : Task E → Task E) (w : World F E)
      → ((t : Task E) → IsReached t → IsReached (f t))
      → Grown w
      → Grown (over_task i f w)
  over_task-Grown i f w keeps (grown m e all) = grown m e (changed (get_elem? w.tasks i) refl)
    where
      changed :
          (o : Option (Task E))
          → get_elem? w.tasks i ≡ o
          → (j : ℕ) (t : Task E) → get_elem? (update i f o w.tasks) j ≡ some t
          → IsReached t
      changed none here j t at = all j t at
      changed (some u) here j t at = elim (get_elem?-set w.tasks i j at) [
        | inl (same, is) ↦ subst IsReached (sym is) (keeps u (all i u here))
        | inr old ↦ all j t old
      ]

  over_muxes-Grown :
      (f : List (String × MuxHandle) → List (String × MuxHandle)) (w : World F E)
      → Grown w
      → Grown (over_muxes f w)
  over_muxes-Grown f w (grown m e all) =
      grown (f m) (ap (λ (q : MuxRegistry F E). record q { muxes = f q.muxes }) e) all

  abbrev IsGrown : World F E × Option MuxHandle → Type 0
  IsGrown p = Grown p.0

  look_up-Grown : (id : String) (w : World F E) → Grown w → Grown (look_up id w).0
  unfolding look_up
  look_up-Grown id w g =
      option_case IsGrown (Map.get id w.registry.muxes) (λ e. g)
        λ i e. if_case IsGrown (is_alive w i) g (over_muxes-Grown (Map.remove id) w g)

  abbrev Kept : World F E × Stage → Type 0
  Kept p = Grown p.0

  spawn_locked-Grown :
      (around : Surroundings F) (id : String) (s : Subscriber)
      → asked id s
      → (w : World F E) → Grown w
      → Grown (spawn_locked h x around id s w).0
  unfolding spawn_locked spawn_mux mux_options run
  spawn_locked-Grown around id s by w g =
      option_case Kept w.registry.agent_cmd (λ e. g)
        λ cmd e.
          if_case Kept around.agent_starts
            (over_muxes-Grown (Map.insert id (length w.tasks))
              (record w { tasks = w.tasks ++ spawn_mux h x around id s w ∷ [] }) (spawned g))
            g
    where
      started :
          {m : List (String × MuxHandle)}
          → w.registry ≡ record r { muxes = m }
          → (spawn_mux h x around id s w).actor
            ≡ reach h x id (mux_options r around) (r.extension_factory around.shared) s []
      started e =
          ap
            (λ (q : MuxRegistry F E).
              start h x id (mux_options q around) (q.extension_factory around.shared) s)
            e

      spawned : Grown w → Grown (record w { tasks = w.tasks ++ spawn_mux h x around id s w ∷ [] })
      spawned (grown m e all) = grown m e λ j t at.
          elim (get_elem?-append w.tasks (spawn_mux h x around id s w) j at) [
            | inl (here, is) ↦ subst IsReached (sym is) (
                reached around (mux_options r around) s []
                  (record {
                    replay_policy = refl;
                    mux_ttl = refl;
                    client_tool_policy = refl;
                    agent_cwd = refl;
                    replay_store = refl;
                  })
                  by (started e))
            | inr old ↦ all j t old
          ]

  or_join-Grown :
      (k : World F E → World F E × Stage)
      → ((w : World F E) → Grown w → Grown (k w).0)
      → (p : World F E × Option MuxHandle) → Grown p.0
      → Grown (or_join p k).0
  or_join-Grown k keeps (w, none) g = keeps w g
  or_join-Grown k keeps (w, some i) g = g

  try_join-Grown :
      (writes i : ℕ) (s : Subscriber) (w : World F E)
      → Grown w
      → Grown (try_join h x writes i s w).0
  unfolding try_join
  try_join-Grown writes i s w g =
      option_case Kept (get_elem? w.tasks i) (λ e. g)
        λ t at. if_case Kept t.returned g (
          status_case Kept t.actor.status
            (set-Grown i (step_task h x (message (attaches s) writes) t) w
              (step_task-IsReached (message (attaches s) writes) t (tasks_of w g i t at)) g)
            g)

  attach-Grown :
      (around : Surroundings F) (writes : ℕ) (id : String) (s : Subscriber)
      → asked id s
      → (g : Stage) (w : World F E) → Grown w
      → Grown (attach h x around writes id s g w).0
  unfolding attach
  attach-Grown around writes id s by entering w k =
      or_join-Grown (λ w'. (w', spawning)) (λ w' k'. k') (look_up id w) (look_up-Grown id w k)
  attach-Grown around writes id s by spawning w k =
      or_join-Grown (spawn_locked h x around id s) (spawn_locked-Grown around id s by)
        (look_up id w) (look_up-Grown id w k)
  attach-Grown around writes id s by (joining i) w k = try_join-Grown writes i s w k
  attach-Grown around writes id s by (returned a) w k = k

  abbrev IsAsked : Call → Type 0
  IsAsked c = asked c.mux_id c.subscriber

  -- The world is grown, and every call is one of those that have called.
  record Sound (y : System F E) : Type 0 where
    world : Grown y.world
    calls : (k : ℕ) (c : Call) → get_elem? y.calls k ≡ some c → IsAsked c

  resume-Sound :
      (around : Surroundings F) (writes k : ℕ) (o : Option Call) (y : System F E)
      → get_elem? y.calls k ≡ o
      → Sound y
      → Sound (resume h x around writes k o y)
  resume-Sound around writes k none y at g = g
  resume-Sound around writes k (some c) y at g = record {
    world =
        attach-Grown around writes c.mux_id c.subscriber (g.calls k c at) c.stage y.world g.world;
    calls = λ j d there. elim (get_elem?-set y.calls k j there) [
      | inl (here, is) ↦ subst IsAsked (sym is) (g.calls k c at)
      | inr old ↦ g.calls j d old
    ];
  }

  -- A call that begins is one of those that have called.
  abbrev Honest : Move F → Type 0
  Honest m = (id : String) (s : Subscriber) → m ≡ begins id s → asked id s

  move-Sound : (m : Move F) (y : System F E) → Honest m → Sound y → Sound (move h x m y)
  unfolding move shutdown
  move-Sound (begins id s) y k g = record {
    world = g.world;
    calls = λ j d there.
        elim (get_elem?-append y.calls (record { mux_id = id; subscriber = s; stage = entering }) j
          there) [
            | inl (here, is) ↦ subst IsAsked (sym is) (k id s refl)
            | inr old ↦ g.calls j d old
          ];
  }
  move-Sound (goes_on k around writes) y honest g =
      resume-Sound around writes k (get_elem? y.calls k) y refl g
  move-Sound (acts i e) y k g = record {
    world = over_task-Grown i (step_task h x e) y.world (step_task-IsReached e) g.world;
    calls = g.calls;
  }
  move-Sound (returns i) y k g = record {
    world =
        over_task-Grown i (λ t. returned_if_done t.actor.status t) y.world
          (λ t. returned_if_done-IsReached t.actor.status t) g.world;
    calls = g.calls;
  }
  move-Sound shuts_down y k g = record {
    world = over_muxes-Grown (λ m. []) y.world g.world;
    calls = g.calls;
  }

  after-Sound :
      (ms : List (Move F)) (y : System F E)
      → ((k : ℕ) (m : Move F) → get_elem? ms k ≡ some m → Honest m)
      → Sound y
      → Sound (after h x ms y)
  unfolding after
  after-Sound [] y k g = g
  after-Sound (m ∷ ms) y k g =
      after-Sound ms (move h x m y) (λ n. k (suc n)) (move-Sound m y (k 0 m refl) g)

  all_tasks :
      (ms : List (Move F))
      → ((k : ℕ) (m : Move F) → get_elem? ms k ≡ some m → Honest m)
      → (i : MuxHandle) (t : Task E) → get_elem? (after h x ms (fresh r)).world.tasks i ≡ some t
      → IsReached t
  all_tasks ms k =
      tasks_of _
        (after-Sound ms (fresh r) k
          (record { world = grown [] refl (λ i t at. cc); calls = λ j c at. cc })).world

-- A call of attach for this mux and this subscriber is among the moves.
abbrev pub Called : {F : Type 0} → List (Move F) → String → Subscriber → Type 0
Called ms id s = (k : ℕ) × (get_elem? ms k ≡ some (begins id s))

-- Whatever is called, and however the calls interleave: a task of a registry runs what an actor of its
-- mux becomes on some events, started with a fresh extension, the settings of the registry and, as its
-- first subscriber, one that has called attach for this mux.
pub task-IsReached :
    (h : Host) {F E : Type 0} (x : MuxExtension E) (r : MuxRegistry F E) (ms : List (Move F))
    (i : MuxHandle) (t : Task E)
    → get_elem? (after h x ms (fresh r)).world.tasks i ≡ some t
    → IsReached h x r (Called ms) t
task-IsReached h x r ms = all_tasks h x r (Called ms) ms λ k m at id s e. (k, at ∙ ap some e)
