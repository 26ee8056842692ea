-- ===== src/Registry/Answers.antt =====
-- crates/acp-mux/src/mux/registry.rs: the handles that calls of `attach` are answered.
use acp_mux.Base.{
  Bool, true, false, not, List, [], ◌∷◌, ℕ, ◌≡◌, refl, ap, sym, ◌∙◌, subst, Option, none, some,
  get_elem?, get_elem?-set, get_elem?-append, absent, inl, inr, eq_text, All,
}
use acp_mux.Base.Map
use acp_mux.Base.Map.{get-insert, get-remove}
use acp_mux.Host.{Host}
use acp_mux.Jsonrpc.{ok}
use acp_mux.Extension.{MuxExtension}
use acp_mux.Registry.{
  MuxHandle, MuxRegistry, World, Task, entering, returned, Surroundings, attach, shutdown, is_live,
  is_alive, step_task,
}
use acp_mux.Registry.Handles.{Stays, Holds, Holds-Stays, set-Stays}
use acp_mux.Registry.Advance.{Mapped, attach-Advance}
use acp_mux.Registry.OneActor.{one_live_actor, returned_if_done-mux_id}
use acp_mux.Registry.Calls.{
  System, Move, IsCall, begins, goes_on, acts, returns, shuts_down, move, after, over_task, fresh,
  returned_if_done, resume, update, Call,
}

module _ (h : Host) {F E : Type 0} (x : MuxExtension E) where
  -- The map, and what each call holds, fit the tasks.
  record Fits (y : System F E) : Type 0 where
    mapped : Mapped y.world
    held : (k : ℕ) (c : Call) → get_elem? y.calls k ≡ some c → Holds c.mux_id y.world.tasks c.stage

  -- The tasks change beside the calls.
  aside-Fits :
      (w : World F E) (y : System F E)
      → Stays y.world.tasks w.tasks
      → Mapped w
      → Fits y
      → Fits (record y { world = w })
  aside-Fits w y stay m f = record {
    mapped = m;
    held = λ k c at. Holds-Stays c.mux_id _ _ c.stage stay (f.held k c at);
  }

  over_task-Fits :
      (i : ℕ) (g : Task E → Task E) (y : System F E)
      → ((t : Task E) → (g t).mux_id ≡ t.mux_id)
      → Fits y
      → Fits (record y { world = over_task i g y.world })
  over_task-Fits i g y same f =
      aside-Fits (over_task i g y.world) y stay (λ id j e. stay id j (f.mapped id j e)) f
    where
      changed :
          (o : Option (Task E))
          → get_elem? y.world.tasks i ≡ o
          → Stays y.world.tasks (update i g o y.world.tasks)
      changed none at id j k = k
      changed (some t) at id j k = set-Stays i (g t) t y.world.tasks at (same t) id j k

      stay : Stays y.world.tasks (over_task i g y.world).tasks
      stay = changed (get_elem? y.world.tasks i) refl

  resume-Fits :
      (around : Surroundings F) (writes k : ℕ) (o : Option Call) (y : System F E)
      → get_elem? y.calls k ≡ o
      → Fits y
      → Fits (resume h x around writes k o y)
  resume-Fits around writes k none y at f = f
  resume-Fits around writes k (some c) y at f =
      let a =
        attach-Advance h x around writes c.mux_id c.subscriber c.stage y.world f.mapped
          (f.held k c at) in
      record {
        mapped = a.mapped;
        held = λ j d here. elim (get_elem?-set y.calls k j here) [
          | inl (same, is) ↦
              subst
                (λ (b : Call).
                  Holds b.mux_id
                    (attach h x around writes c.mux_id c.subscriber c.stage y.world).0.tasks
                    b.stage)
                (sym is) a.holds
          | inr old ↦ Holds-Stays d.mux_id _ _ d.stage a.stays (f.held j d old)
        ];
      }

  move-Fits : (m : Move F) (y : System F E) → Fits y → Fits (move h x m y)
  unfolding move shutdown Map.get
  move-Fits (begins id s) y f = record {
    mapped = f.mapped;
    held = λ k c at.
        elim (get_elem?-append y.calls (record { mux_id = id; subscriber = s; stage = entering }) k
          at) [
            | inl (same, is) ↦
                subst (λ (b : Call). Holds b.mux_id y.world.tasks b.stage) (sym is) tt
            | inr old ↦ f.held k c old
          ];
  }
  move-Fits (goes_on k around writes) y f =
      resume-Fits around writes k (get_elem? y.calls k) y refl f
  move-Fits (acts i e) y f = over_task-Fits i (step_task h x e) y (λ t. refl) f
  move-Fits (returns i) y f =
      over_task-Fits i (λ t. returned_if_done t.actor.status t) y
        (λ t. returned_if_done-mux_id t.actor.status t) f
  move-Fits shuts_down y f = aside-Fits (shutdown y.world) y (λ id j k. k) (λ id j e. absent e) f

  after-Fits : (ms : List (Move F)) (y : System F E) → Fits y → Fits (after h x ms y)
  unfolding after
  after-Fits [] y f = f
  after-Fits (m ∷ ms) y f = after-Fits ms (move h x m y) (move-Fits m y f)

  -- Until the registry is shut down: two calls of attach for one mux that were answered with handles
  -- of actors that have not returned were answered with the same actor, however the calls and the
  -- actors interleave.
  pub calls_share_actor :
      (r : MuxRegistry F E) (ms : List (Move F)) (k l : ℕ) (c d : Call) (i j : MuxHandle)
      → All IsCall ms
      → get_elem? (after h x ms (fresh r)).calls k ≡ some c
      → get_elem? (after h x ms (fresh r)).calls l ≡ some d
      → c.stage ≡ returned (ok i)
      → d.stage ≡ returned (ok j)
      → c.mux_id ≡ d.mux_id
      → is_alive (after h x ms (fresh r)).world i ≡ true
      → is_alive (after h x ms (fresh r)).world j ≡ true
      → i ≡ j
  unfolding is_alive Map.get
  calls_share_actor r ms k l c d i j calls ck dl ci dj same li lj =
      let f =
        after-Fits ms (fresh r)
          (record { mapped = λ id a e. absent e; held = λ a b e. absent e }) in
      let p = subst (Holds c.mux_id (after h x ms (fresh r)).world.tasks) ci (f.held k c ck) in
      let q = subst (Holds d.mux_id (after h x ms (fresh r)).world.tasks) dj (f.held l d dl) in
      one_live_actor h x r ms i j p.task q.task calls p.is_there q.is_there (live li p.is_there)
        (live lj q.is_there) (p.same_mux ∙ same ∙ sym q.same_mux)
    where
      not_true : (b : Bool) → not b ≡ true → b ≡ false
      not_true true n = sym n
      not_true false n = refl

      live : {o : Option (Task E)} {t : Task E} → is_live o ≡ true → o ≡ some t → t.returned ≡ false
      live {o} {t} l e = not_true t.returned (ap is_live (sym e) ∙ l)
