-- ===== src/Registry/Names.antt =====
-- crates/acp-mux/src/mux/registry.rs: which tasks the map of the muxes names, and the changes of a world.
use acp_mux.Base.{
  String, true, false, [], ◌∷◌, ◌++◌, ℕ, ◌≡◌, refl, ap, sym, ◌∙◌, Option, none, some, get_elem?,
  set, get_elem?-set, get_elem?-append, length, inl, inr, Bool-cases, ◌==◌, eq_text, if◌then◌else◌,
  ==_refl,
}
use acp_mux.Base.Map
use acp_mux.Base.Map.{get-insert, get-remove}
use acp_mux.Registry.{
  MuxHandle, World, Task, Stage, look_up, is_live, is_alive, over_muxes, or_join,
}
use acp_mux.Registry.Calls.{over_task, update}

module _ {F E : Type 0} where
  -- Every task that has not returned is the one that the map names for its mux.
  abbrev pub Names : World F E → Type 0
  Names w =
      (i : ℕ) (t : Task E)
      → get_elem? w.tasks i ≡ some t
      → t.returned ≡ false
      → Map.get t.mux_id w.registry.muxes ≡ some i

  -- No task that has not returned is of the mux `id`.
  abbrev pub Vacant : String → World F E → Type 0
  Vacant id w =
      (i : ℕ) (t : Task E)
      → get_elem? w.tasks i ≡ some t
      → t.returned ≡ false
      → (id == t.mux_id) ≡ false

  -- A task changes in place: its mux stays, and it does not come back to life.
  pub set-Names :
      (i : ℕ) (f : Task E → Task E) (w : World F E) (t : Task E)
      → get_elem? w.tasks i ≡ some t
      → (f t).mux_id ≡ t.mux_id
      → ((f t).returned ≡ false → t.returned ≡ false)
      → Names w
      → Names (record w { tasks = set w.tasks i (f t) })
  set-Names i f w t at same alive n j u e l = elim (get_elem?-set w.tasks i j e) [
    | inl (here, is) ↦
        let live : (f t).returned ≡ false = ap (λ (v : Task E). v.returned) (sym is) ∙ l in
        ap (λ (v : Task E). Map.get v.mux_id w.registry.muxes) is
        ∙ ap (λ (id : String). Map.get id w.registry.muxes) same
        ∙ n i t at (alive live)
        ∙ ap some (sym here)
    | inr old ↦ n j u old l
  ]

  pub over_task-Names :
      (i : ℕ) (f : Task E → Task E) (w : World F E)
      → ((t : Task E) → (f t).mux_id ≡ t.mux_id)
      → ((t : Task E) → (f t).returned ≡ false → t.returned ≡ false)
      → Names w
      → Names (over_task i f w)
  over_task-Names i f w same alive n = changed (get_elem? w.tasks i) refl
    where
      changed :
          (o : Option (Task E))
          → get_elem? w.tasks i ≡ o
          → Names (record w { tasks = update i f o w.tasks })
      changed none at j u e l = n j u e l
      changed (some t) at j u e l = set-Names i f w t at (same t) (alive t) n j u e l

  -- What the map holds for `id` is dead.
  dead-Vacant :
      (id : String) (w : World F E)
      → Names w
      → ((i : ℕ) → Map.get id w.registry.muxes ≡ some i → is_alive w i ≡ false)
      → Vacant id w
  unfolding is_alive
  dead-Vacant id w n dead i t e l = elim (Bool-cases (id == t.mux_id)) [
    | inr other ↦ other
    | inl same ↦
        let named : Map.get id w.registry.muxes ≡ some i =
          ap (λ (k : String). Map.get k w.registry.muxes) ((eq_text.alike_iff id t.mux_id).0 same)
          ∙ n i t e l in
        let gone : is_live (get_elem? w.tasks i) ≡ false = dead i named in
        let live : is_live (get_elem? w.tasks i) ≡ true = rw e (rw l refl) in cc
  ]

  remove-Names :
      (id : String) (w : World F E) → Vacant id w → Names w → Names (over_muxes (Map.remove id) w)
  remove-Names id w v n i t e l =
      get-remove id t.mux_id w.registry.muxes ∙ rw (v i t e l) (n i t e l)

  -- A task for a vacant mux joins the others, and the map.
  pub enter-Names :
      (id : String) (t : Task E) (w : World F E)
      → t.mux_id ≡ id
      → Vacant id w
      → Names w
      → Names (over_muxes (Map.insert id (length w.tasks)) (record w { tasks = w.tasks ++ t ∷ [] }))
  enter-Names id t w is v n i u e l = elim (get_elem?-append w.tasks t i e) [
    | inl (here, new) ↦
        get-insert id u.mux_id (length w.tasks) w.registry.muxes
        ∙ rw (new, is, ==_refl id) (ap some (sym here))
    | inr old ↦
        get-insert id u.mux_id (length w.tasks) w.registry.muxes ∙ rw (v i u old l) (n i u old l)
  ]

  -- What a reading of the map finds: an entry whose task has not returned, or a vacant mux.
  pub data Found (id : String) (w : World F E) : World F E × Option MuxHandle → Type 0 where
    alive : (i : ℕ) → Found id w (w, some i)
    vacant : (w' : World F E) → Names w' → Vacant id w' → Found id w (w', none)

  pub look_up-Found : (id : String) (w : World F E) → Names w → Found id w (look_up id w)
  unfolding look_up
  look_up-Found id w n = by_entry (Map.get id w.registry.muxes) refl
    where
      by_entry :
          (o : Option MuxHandle)
          → Map.get id w.registry.muxes ≡ o
          → Found id w (elim o [
            | none ↦ (w, none)
            | some i ↦ if is_alive w i then (w, some i) else (over_muxes (Map.remove id) w, none)
          ])
      by_entry none e = vacant w n (dead-Vacant id w n (λ i here. cc))
      by_entry (some i) e = elim (Bool-cases (is_alive w i)) [
        | inl live ↦ rw live (alive i)
        | inr dead ↦
            let v =
              dead-Vacant id w n
                (λ j here. ap (is_alive w) (let same : j ≡ i = cc in same) ∙ dead) in
            rw dead (vacant _ (remove-Names id w v n) v)
      ]

  pub or_join-Names :
      {id : String} {w : World F E} {r : World F E × Option MuxHandle}
      (k : World F E → World F E × Stage)
      → ((w' : World F E) → Vacant id w' → Names w' → Names (k w').0)
      → Names w
      → Found id w r
      → Names (or_join r k).0
  or_join-Names k keeps n (alive i) = n
  or_join-Names k keeps n (vacant w' n' v) = keeps w' v n'
