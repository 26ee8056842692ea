-- ===== src/Registry/Handles.antt =====
-- crates/acp-mux/src/mux/registry.rs: handles as places of tasks, and what becomes of them as tasks are
-- added and changed.
use acp_mux.Base.{
  String, List, [], ◌∷◌, ◌++◌, ℕ, ◌≡◌, ap, sym, ◌∙◌, some, get_elem?, set, get_elem?-set_old,
  get_elem?-append_old, inl, inr,
}
use acp_mux.Jsonrpc.{Result, ok, err}
use acp_mux.Mux.Attach.{AttachError}
use acp_mux.Registry.{MuxHandle, Task, Stage, entering, spawning, joining, returned, joined}

module _ {E : Type 0} where
  -- The handle `i` is that of a task of the mux `id`.
  pub record IsOf (id : String) (ts : List (Task E)) (i : MuxHandle) : Type 0 where
    pub task : Task E
    pub is_there : get_elem? ts i ≡ some task
    pub same_mux : task.mux_id ≡ id

  -- The tasks of `ts` are still there in `us`, for the same muxes.
  abbrev pub Stays : List (Task E) → List (Task E) → Type 0
  Stays ts us = (id : String) (i : ℕ) → IsOf id ts i → IsOf id us i

  -- What a call holds is a handle of its mux.
  abbrev pub Holds : String → List (Task E) → Stage → Type 0
  Holds id ts (joining i) = IsOf id ts i
  Holds id ts (returned (ok i)) = IsOf id ts i
  Holds id ts _ = Unit

  pub Holds-Stays :
      (id : String) (ts us : List (Task E)) (g : Stage)
      → Stays ts us
      → Holds id ts g
      → Holds id us g
  Holds-Stays id ts us entering s k = k
  Holds-Stays id ts us spawning s k = k
  Holds-Stays id ts us (joining i) s k = s id i k
  Holds-Stays id ts us (returned (ok i)) s k = s id i k
  Holds-Stays id ts us (returned (err e)) s k = k

  pub Holds-joined :
      (id : String) (ts : List (Task E)) (i : MuxHandle) (a : Result AttachError (Unit {0}))
      → IsOf id ts i
      → Holds id ts (joined i a)
  Holds-joined id ts i (ok u) k = k
  Holds-joined id ts i (err e) k = tt

  -- A task is replaced by one of the same mux.
  pub set-Stays :
      (i : ℕ) (u t : Task E) (ts : List (Task E))
      → get_elem? ts i ≡ some t
      → u.mux_id ≡ t.mux_id
      → Stays ts (set ts i u)
  set-Stays i u t ts at same id j k = elim (get_elem?-set_old ts i j u k.is_there) [
    | inl (here, now) ↦
        let is : k.task ≡ t = some_inj (sym k.is_there ∙ ap (get_elem? ts) here ∙ at) in
        record {
          task = u;
          is_there = now;
          same_mux = same ∙ ap (λ (v : Task E). v.mux_id) (sym is) ∙ k.same_mux;
        }
    | inr old ↦ record { task = k.task; is_there = old; same_mux = k.same_mux }
  ]
    where
      some_inj : {a b : Task E} → some a ≡ some b → a ≡ b
      some_inj e = cc

  pub append-Stays : (t : Task E) (ts : List (Task E)) → Stays ts (ts ++ t ∷ [])
  append-Stays t ts id i k = record {
    task = k.task;
    is_there = get_elem?-append_old ts (t ∷ []) i k.is_there;
    same_mux = k.same_mux;
  }
