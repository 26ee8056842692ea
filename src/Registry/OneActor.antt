-- ===== src/Registry/OneActor.antt =====
-- crates/acp-mux/src/mux/registry.rs: which tasks the map of the muxes names, along the calls.
use acp_mux.Base.{
  String, false, List, [], ◌∷◌, ℕ, ◌≡◌, refl, Option, none, some, get_elem?, eq_text, All,
  option_case, if_case, absent,
}
use acp_mux.Host.{Host}
use acp_mux.Core.{Subscriber}
use acp_mux.Extension.{MuxExtension}
use acp_mux.Mux.Run.{
  Status, running, ttl_expired, no_senders, agent_gone, write_failed, message, attaches,
}
use acp_mux.Registry.{
  MuxHandle, MuxRegistry, World, Task, Stage, entering, spawning, joining, returned, Surroundings,
  attach, spawn_locked, try_join, spawn_mux, step_task,
}
use acp_mux.Registry.Names.{
  Names, Vacant, set-Names, over_task-Names, enter-Names, or_join-Names, look_up-Found,
}
use acp_mux.Registry.Calls.{
  System, Move, IsCall, begins, goes_on, acts, returns, shuts_down, move, after, fresh,
  returned_if_done, resume, Call,
}

pub status_case :
    {A : Type 0} (P : A → Type 0) (s : Status) {a b : A}
    → P a
    → P b
    → P (elim s [ running ↦ a | _ ↦ b ])
status_case P running p q = p
status_case P ttl_expired p q = q
status_case P no_senders p q = q
status_case P agent_gone p q = q
status_case P write_failed p q = q

pub returned_if_done-mux_id :
    {E : Type 0} (s : Status) (t : Task E) → (returned_if_done s t).mux_id ≡ t.mux_id
returned_if_done-mux_id running t = refl
returned_if_done-mux_id ttl_expired t = refl
returned_if_done-mux_id no_senders t = refl
returned_if_done-mux_id agent_gone t = refl
returned_if_done-mux_id write_failed t = refl

returned_if_done-live :
    {E : Type 0} (s : Status) (t : Task E)
    → (returned_if_done s t).returned ≡ false
    → t.returned ≡ false
returned_if_done-live running t l = l
returned_if_done-live ttl_expired t l = cc
returned_if_done-live no_senders t l = cc
returned_if_done-live agent_gone t l = cc
returned_if_done-live write_failed t l = cc

module _ (h : Host) {F E : Type 0} (x : MuxExtension E) where
  abbrev Kept : World F E × Stage → Type 0
  Kept r = Names r.0

  spawn_locked-Names :
      (around : Surroundings F) (id : String) (s : Subscriber) (w : World F E)
      → Vacant id w
      → Names w
      → Names (spawn_locked h x around id s w).0
  unfolding spawn_locked spawn_mux
  spawn_locked-Names around id s w v n =
      option_case Kept w.registry.agent_cmd (λ e. n)
        λ cmd e.
          if_case Kept around.agent_starts (enter-Names id (spawn_mux h x around id s w) w refl v n)
            n

  try_join-Names :
      (writes i : ℕ) (s : Subscriber) (w : World F E)
      → Names w
      → Names (try_join h x writes i s w).0
  unfolding try_join
  try_join-Names writes i s w n =
      option_case Kept (get_elem? w.tasks i) (λ e. n)
        λ t at. if_case Kept t.returned n (
          status_case Kept t.actor.status
            (set-Names i (step_task h x (message (attaches s) writes)) w t at refl (λ l. l) n) n)

  attach-Names :
      (around : Surroundings F) (writes : ℕ) (id : String) (s : Subscriber) (g : Stage)
      (w : World F E)
      → Names w
      → Names (attach h x around writes id s g w).0
  unfolding attach
  attach-Names around writes id s entering w n =
      or_join-Names (λ w'. (w', spawning)) (λ w' v n'. n') n (look_up-Found id w n)
  attach-Names around writes id s spawning w n =
      or_join-Names (spawn_locked h x around id s) (spawn_locked-Names around id s) n
        (look_up-Found id w n)
  attach-Names around writes id s (joining i) w n = try_join-Names writes i s w n
  attach-Names around writes id s (returned r) w n = n

  resume-Names :
      (around : Surroundings F) (writes k : ℕ) (o : Option Call) (y : System F E)
      → Names y.world
      → Names (resume h x around writes k o y).world
  resume-Names around writes k none y n = n
  resume-Names around writes k (some c) y n =
      attach-Names around writes c.mux_id c.subscriber c.stage y.world n

  move-Names : (m : Move F) (y : System F E) → IsCall m → Names y.world → Names (move h x m y).world
  unfolding move
  move-Names (begins id s) y c n = n
  move-Names (goes_on k around writes) y c n =
      resume-Names around writes k (get_elem? y.calls k) y n
  move-Names (acts i e) y c n = over_task-Names i (step_task h x e) y.world (λ t. refl) (λ t l. l) n
  move-Names (returns i) y c n =
      over_task-Names i (λ t. returned_if_done t.actor.status t) y.world
        (λ t. returned_if_done-mux_id t.actor.status t)
        (λ t l. returned_if_done-live t.actor.status t l) n
  move-Names shuts_down y c n = absurd c

  after-Names :
      (ms : List (Move F)) (y : System F E)
      → All IsCall ms
      → Names y.world
      → Names (after h x ms y).world
  unfolding after
  after-Names [] y c n = n
  after-Names (m ∷ ms) y c n = after-Names ms (move h x m y) c.1 (move-Names m y c.0 n)

  -- Of one mux, at most one task has not returned, until the registry is shut down.
  pub one_live_actor :
      (r : MuxRegistry F E) (ms : List (Move F)) (i j : MuxHandle) (t u : Task E)
      → All IsCall ms
      → get_elem? (after h x ms (fresh r)).world.tasks i ≡ some t
      → get_elem? (after h x ms (fresh r)).world.tasks j ≡ some u
      → t.returned ≡ false
      → u.returned ≡ false
      → t.mux_id ≡ u.mux_id
      → i ≡ j
  one_live_actor r ms i j t u c at au lt lu same =
      let n = after-Names ms (fresh r) c (λ k v e l. absent e) in
      let a = n i t at lt in let b = n j u au lu in cc
