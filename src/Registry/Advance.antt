-- ===== src/Registry/Advance.antt =====
-- crates/acp-mux/src/mux/registry.rs: a step of a call of `attach`, and the handles that it knows.
use acp_mux.Base.{
  String, Bool, true, false, List, [], ◌∷◌, ◌++◌, ℕ, ◌≡◌, refl, ap, sym, ◌∙◌, Option, none, some,
  get_elem?, set, get_elem?-append_new, inl, inr, if◌then◌else◌, option_case, if_case, eq_text,
  length, ◌==◌, Bool-cases,
}
use acp_mux.Base.Map
use acp_mux.Base.Map.{get-insert, get-remove}
use acp_mux.Host.{Host}
use acp_mux.Jsonrpc.{Result, ok}
use acp_mux.Core.{Subscriber}
use acp_mux.Extension.{MuxExtension}
use acp_mux.Mux.Attach.{AttachError, attach as attach_mux}
use acp_mux.Mux.Run.{message, attaches}
use acp_mux.Registry.{
  MuxHandle, World, Task, Stage, entering, spawning, joining, returned, Surroundings, attach,
  look_up, spawn_locked, try_join, is_alive, over_muxes, spawn_mux, or_join, step_task, joined,
}
use acp_mux.Registry.Handles.{IsOf, Stays, Holds, Holds-joined, set-Stays, append-Stays}
use acp_mux.Registry.OneActor.{status_case}

module _ {F E : Type 0} where
  abbrev pub Mapped : World F E → Type 0
  Mapped w = (id : String) (i : ℕ) → Map.get id w.registry.muxes ≡ some i → IsOf id w.tasks i

  -- What a step of a call leaves: the old tasks, a sound map, a sound stage.
  pub record Advance (id : String) (ts : List (Task E)) (r : World F E × Stage) : Type 0 where
    pub stays : Stays ts r.0.tasks
    pub mapped : Mapped r.0
    pub holds : Holds id r.0.tasks r.1

  rests :
      {id : String} (w : World F E) (g : Stage)
      → Mapped w
      → Holds id w.tasks g
      → Advance id w.tasks (w, g)
  rests w g m k = record { stays = λ id i o. o; mapped = m; holds = k }

  remove-Mapped : (id : String) (w : World F E) → Mapped w → Mapped (over_muxes (Map.remove id) w)
  remove-Mapped id w m j i e =
      m j i
        (kept (id == j) (Map.get j w.registry.muxes) (sym (get-remove id j w.registry.muxes) ∙ e))
    where
      kept :
          (b : Bool) (o : Option MuxHandle) {i : MuxHandle}
          → (if b then none else o) ≡ some i
          → o ≡ some i
      kept true o e = cc
      kept false o e = e

  enter-Mapped :
      (id : String) (t : Task E) (w : World F E)
      → t.mux_id ≡ id
      → Mapped w
      → Mapped
          (over_muxes (Map.insert id (length w.tasks)) (record w { tasks = w.tasks ++ t ∷ [] }))
  enter-Mapped id t w is m j i e = elim (Bool-cases (id == j)) [
    | inl same ↦
        let new : length w.tasks ≡ i = some_inj (
          ap (λ b. if b then some (length w.tasks) else Map.get j w.registry.muxes) (sym same)
          ∙ sym (get-insert id j (length w.tasks) w.registry.muxes)
          ∙ e) in
        record {
          task = t;
          is_there = ap (get_elem? (w.tasks ++ t ∷ [])) (sym new) ∙ get_elem?-append_new w.tasks t;
          same_mux = is ∙ (eq_text.alike_iff id j).0 same;
        }
    | inr other ↦ append-Stays t w.tasks j i (
        m j i (
          ap (λ b. if b then some (length w.tasks) else Map.get j w.registry.muxes) (sym other)
          ∙ sym (get-insert id j (length w.tasks) w.registry.muxes)
          ∙ e))
  ]
    where
      some_inj : {a b : ℕ} → some a ≡ some b → a ≡ b
      some_inj e = cc

  look_up-Advance :
      (id : String) (w : World F E) (k : World F E → World F E × Stage)
      → Mapped w
      → ((f : List (String × MuxHandle) → List (String × MuxHandle))
          → Mapped (over_muxes f w)
          → Advance id w.tasks (k (over_muxes f w)))
      → Advance id w.tasks (or_join (look_up id w) k)
  unfolding look_up
  look_up-Advance id w k m next =
      option_case (λ p. Advance id w.tasks (or_join p k)) (Map.get id w.registry.muxes)
        (λ e. next (λ q. q) m)
        λ i e.
          if_case (λ p. Advance id w.tasks (or_join p k)) (is_alive w i)
            (rests w (joining i) m (m id i e)) (next (Map.remove id) (remove-Mapped id w m))

module _ (h : Host) {F E : Type 0} (x : MuxExtension E) where
  spawn_locked-Advance :
      (around : Surroundings F) (id : String) (s : Subscriber) (w : World F E)
      → Mapped w
      → Advance id w.tasks (spawn_locked h x around id s w)
  unfolding spawn_locked spawn_mux
  spawn_locked-Advance around id s w m =
      option_case (Advance id w.tasks) w.registry.agent_cmd (λ e. rests w _ m tt)
        λ cmd e.
          if_case (Advance id w.tasks) around.agent_starts
            (let a : Advance id w.tasks (
              over_muxes (Map.insert id (length w.tasks))
                  (record w { tasks = w.tasks ++ spawn_mux h x around id s w ∷ [] }),
              returned (ok (length w.tasks)),
            ) =
                (record {
                  stays = append-Stays (spawn_mux h x around id s w) w.tasks;
                  mapped = enter-Mapped id (spawn_mux h x around id s w) w refl m;
                  holds = record {
                    task = spawn_mux h x around id s w;
                    is_there = get_elem?-append_new w.tasks (spawn_mux h x around id s w);
                    same_mux = refl;
                  };
                }) in
              a)
            (rests w _ m tt)

  try_join-Advance :
      (writes i : ℕ) (id : String) (s : Subscriber) (w : World F E)
      → Mapped w
      → IsOf id w.tasks i
      → Advance id w.tasks (try_join h x writes i s w)
  unfolding try_join
  try_join-Advance writes i id s w m k =
      option_case (Advance id w.tasks) (get_elem? w.tasks i) (λ e. rests w _ m tt)
        λ t at. if_case (Advance id w.tasks) t.returned (rests w _ m tt) (
          status_case (Advance id w.tasks) t.actor.status
            (answered_with t at (attach_mux x s t.actor.mux).1) (rests w _ m k))
    where
      answered_with :
          (t : Task E)
          → get_elem? w.tasks i ≡ some t
          → (a : Result AttachError (Unit {0}))
          → Advance id w.tasks (
            record w { tasks = set w.tasks i (step_task h x (message (attaches s) writes) t) },
            joined i a,
          )
      answered_with t at a =
          let stay =
            set-Stays i (step_task h x (message (attaches s) writes) t) t w.tasks at refl in
          record {
            stays = stay;
            mapped = λ d j e. stay d j (m d j e);
            holds = Holds-joined id _ i a (stay id i k);
          }

  pub attach-Advance :
      (around : Surroundings F) (writes : ℕ) (id : String) (s : Subscriber) (g : Stage)
      (w : World F E)
      → Mapped w
      → Holds id w.tasks g
      → Advance id w.tasks (attach h x around writes id s g w)
  unfolding attach
  attach-Advance around writes id s entering w m k =
      look_up-Advance id w (λ w'. (w', spawning)) m (λ f m'. rests (over_muxes f w) spawning m' tt)
  attach-Advance around writes id s spawning w m k =
      look_up-Advance id w (spawn_locked h x around id s) m
        (λ f m'. spawn_locked-Advance around id s (over_muxes f w) m')
  attach-Advance around writes id s (joining i) w m k = try_join-Advance writes i id s w m k
  attach-Advance around writes id s (returned r) w m k = rests w (returned r) m k
