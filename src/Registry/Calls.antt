-- ===== src/Registry/Calls.antt =====
-- crates/acp-mux/src/mux/registry.rs: calls of `attach` beside one another, interleaved at their waits
-- with the actors that they have spawned.
use acp_mux.Base.{String, true, List, [], ◌∷◌, ◌++◌, ℕ, Option, none, some, get_elem?, set}
use acp_mux.Host.{Host}
use acp_mux.Core.{Subscriber}
use acp_mux.Extension.{MuxExtension}
use acp_mux.Mux.Run.{Event, Status, running}
use acp_mux.Registry.{
  MuxHandle, MuxRegistry, World, Task, Stage, entering, Surroundings, attach, shutdown, step_task,
}

pub record Call : Type 0 where
  pub mux_id : String
  pub subscriber : Subscriber
  pub stage : Stage

pub record System (F E : Type 0) : Type 0 where
  pub world : World F E
  pub calls : List Call

-- A call begins, a call goes on to its next wait, an actor takes an event, the task of an actor that has
-- left its loop returns, the registry is shut down.
pub data Move (F : Type 0) : Type 0 where
  begins : String → Subscriber → Move F
  goes_on : ℕ → Surroundings F → ℕ → Move F
  acts : MuxHandle → Event → Move F
  returns : MuxHandle → Move F
  shuts_down : Move F

-- Every move but the one that forgets tasks which still run.
abbrev pub IsCall : {F : Type 0} → Move F → Type 0
IsCall shuts_down = ⊥
IsCall _ = Unit

abbrev pub returned_if_done : {E : Type 0} → Status → Task E → Task E
returned_if_done running t = t
returned_if_done _ t = record t { returned = true }

abbrev pub update {ℓ} : {A : Type ℓ} → ℕ → (A → A) → Option A → List A → List A
update i f none xs = xs
update i f (some x) xs = set xs i (f x)

module _ {F E : Type 0} where
  abbrev pub over_task : MuxHandle → (Task E → Task E) → World F E → World F E
  over_task i f w = record w { tasks = update i f (get_elem? w.tasks i) w.tasks }

  -- A registry with no mux, before any call.
  abbrev pub fresh : MuxRegistry F E → System F E
  fresh r = record { world = record { registry = record r { muxes = [] }; tasks = [] }; calls = [] }

module _ (h : Host) {F E : Type 0} (x : MuxExtension E) where
  abbrev pub resume : Surroundings F → ℕ → ℕ → Option Call → System F E → System F E
  resume around writes k none s = s
  resume around writes k (some c) s =
      let r = attach h x around writes c.mux_id c.subscriber c.stage s.world in
      record s { world = r.0; calls = set s.calls k (record c { stage = r.1 }) }

  unfoldable pub move : Move F → System F E → System F E
  move (begins id s) y = record y {
    calls = y.calls ++ record { mux_id = id; subscriber = s; stage = entering } ∷ [];
  }
  move (goes_on k around writes) y = resume around writes k (get_elem? y.calls k) y
  move (acts i e) y = record y { world = over_task i (step_task h x e) y.world }
  move (returns i) y = record y {
    world = over_task i (λ t. returned_if_done t.actor.status t) y.world;
  }
  move shuts_down y = record y { world = shutdown y.world }

  unfoldable pub after : List (Move F) → System F E → System F E
  after [] y = y
  after (m ∷ ms) y = after ms (move m y)
