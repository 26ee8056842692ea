-- ===== src/Mux/Proofs/Transcript.antt =====
-- The replay log: numbered in order, and only ever appended to, in memory and on disk.
use acp_mux.Base.{
  ℕ, suc, ◌≤◌, ◌<◌, ◌≡◌, refl, sym, ap, ◌∙◌, String, List, [], ◌∷◌, ◌++◌, Option, none, some,
  map_some, map, Option-cases, Bool-cases, arith, inl, inr, saturating_suc, u64_max,
}
use mathlib.Core.List.{append-nil, append_assoc}
use acp_mux.Host.{Host, Bytes}
use acp_mux.Core.{ReplayEntry, RoomReplayStore, PersistedFrame, Subscriber}
use acp_mux.Core.Send.{append_record}
use acp_mux.Core.New.{
  MuxOptions, new_core, ReplayTurns, disabled, unbounded, bounded, max_seq, entry_of_record,
  hydrate_replay_store, replay_state,
}
use acp_mux.Extension.{MuxExtension, KeepsToCtx}
use acp_mux.Mux.Run.{Actor, Event, run, reach}
use acp_mux.Mux.Steps.OfRun.{keep_run, keep_reachable}
use acp_mux.Mux.Steps.OfLog.{Transcript, transcript, keep_log, entry_for}

-- Sequence numbers rise strictly along the log, from `lo` on, and stay below `hi`.
abbrev pub Ascends : ℕ → List ReplayEntry → ℕ → Type 0
Ascends lo [] hi = lo ≤ hi
Ascends lo (e ∷ es) hi = (lo ≤ e.seq) × Ascends (suc e.seq) es hi

Ascends-append :
    (lo hi : ℕ) (es : List ReplayEntry) (e : ReplayEntry)
    → Ascends lo es e.seq
    → e.seq < hi
    → Ascends lo (es ++ e ∷ []) hi
Ascends-append lo hi [] e a l = (a, l)
Ascends-append lo hi (d ∷ es) e a l = (a.0, Ascends-append (suc d.seq) hi es e a.1 l)

abbrev pub LogAscends : Option (List ReplayEntry) → ℕ → Type 0
LogAscends none hi = Unit {0}
LogAscends (some es) hi = Ascends 0 es hi

abbrev pub IsNumbered : Transcript → Type 0
IsNumbered t = t.next_seq < u64_max → LogAscends t.log t.next_seq

-- What was recorded stays, and what is recorded comes behind it.
abbrev pub ExtendsTo : Transcript → Transcript → Type 0
ExtendsTo s t =
    (more : List ReplayEntry) × (stored : List PersistedFrame) × (t.log
      ≡ map_some (λ (l : List ReplayEntry). l ++ more) s.log)
    × (t.store ≡ map_some (λ (l : RoomReplayStore). l ++ stored) s.store)

more_log {ℓ} :
    {A : Type ℓ} (o : Option (List A)) (l more r : List A)
    → some l ≡ map_some (λ (k : List A). k ++ more) o
    → some (l ++ r) ≡ map_some (λ (k : List A). k ++ (more ++ r)) o
more_log none l more r e = cc
more_log (some k) l more r e = ap (map_some (λ m. m ++ r)) e ∙ ap some (append_assoc k more r)

unextended {ℓ} : {A : Type ℓ} (o : Option (List A)) → o ≡ map_some (λ (k : List A). k ++ []) o
unextended none = refl
unextended (some k) = ap some (sym (append-nil k))

-- The records of the store were numbered in order.
abbrev pub RecordsAscend : ℕ → List PersistedFrame → Type 0
RecordsAscend lo [] = Unit {0}
RecordsAscend lo (r ∷ rs) = (lo ≤ r.seq) × RecordsAscend (suc r.seq) rs

abbrev pub StoreAscends : Option (Option RoomReplayStore) → Type 0
StoreAscends (some (some records)) = RecordsAscend 0 records
StoreAscends (some none) = Unit {0}
StoreAscends none = Unit {0}

hydrated-Ascends :
    (h : Host) (lo hi : ℕ) (rs : List PersistedFrame)
    → RecordsAscend lo rs
    → max_seq rs < hi
    → lo ≤ hi
    → Ascends lo (map (entry_of_record h) rs) hi
unfolding max_seq entry_of_record
hydrated-Ascends h lo hi [] a m l = l
hydrated-Ascends h lo hi (r ∷ rs) a m l =
    (a.0, hydrated-Ascends h (suc r.seq) hi rs a.1 (omega arith) (omega arith))

hydrate-IsNumbered :
    (h : Host) (store : Option (Option RoomReplayStore))
    → StoreAscends store
    → let t = hydrate_replay_store h store in t.2 < u64_max → LogAscends t.0 t.2
unfolding hydrate_replay_store
hydrate-IsNumbered h none a room = omega arith
hydrate-IsNumbered h (some none) a room = omega arith
hydrate-IsNumbered h (some (some rs)) a room =
    hydrated-Ascends h 0 _ rs a (ground arith) (omega arith)

new-IsNumbered :
    (h : Host) (mux_id : String) (o : MuxOptions)
    → StoreAscends o.replay_store
    → IsNumbered (transcript (new_core h mux_id o))
unfolding new_core replay_state
new-IsNumbered h mux_id o a = by_policy o.replay_policy
  where
    by_policy :
        (p : ReplayTurns)
        → let t = replay_state h p o.replay_store in t.2 < u64_max → LogAscends t.0 t.2
    by_policy disabled room = tt
    by_policy unbounded room = hydrate-IsNumbered h o.replay_store a room
    by_policy (bounded n) room = hydrate-IsNumbered h o.replay_store a room

module _ (h : Host) where
  -- What an append writes.
  new_records : ℕ → ℕ → Bytes → List PersistedFrame
  new_records n tag bytes = append_record h n tag bytes []

  append-new :
      (n tag : ℕ) (bytes : Bytes) (st : RoomReplayStore)
      → append_record h n tag bytes st ≡ st ++ new_records n tag bytes
  unfolding append_record new_records
  append-new n tag bytes st = elim (Option-cases (h.from_slice bytes)) [
    | inl e ↦ rw (e, append_record) (sym (append-nil st))
    | inr (v, e) ↦
        rw (e, append_record)
          (elim (Bool-cases (h.append_succeeds n)) [
            | inl f ↦ rw f
            | inr f ↦ rw f (sym (append-nil st))
          ])
  ]

  more_store :
      (o : Option RoomReplayStore) (st : Option RoomReplayStore) (stored : List PersistedFrame)
      (n tag : ℕ) (bytes : Bytes)
      → st ≡ map_some (λ (k : RoomReplayStore). k ++ stored) o
      → map_some (append_record h n tag bytes) st
        ≡ map_some (λ (k : RoomReplayStore). k ++ (stored ++ new_records n tag bytes)) o
  more_store none st stored n tag bytes e = rw e
  more_store (some k) st stored n tag bytes e =
      rw (e, append-new) (ap some (append_assoc k stored (new_records n tag bytes)))

module _ {h : Host} {E : Type 0} (x : MuxExtension E) (k : KeepsToCtx h x) where
  -- Whatever happens, the log and the records on disk are only appended to.
  pub run-ExtendsTo :
      (a : Actor E) (es : List Event)
      → ExtendsTo (transcript a.mux.core) (transcript (run h x a es).mux.core)
  run-ExtendsTo a es =
      let s = transcript a.mux.core in
      keep_run x k (λ c. ExtendsTo s (transcript c))
        (keep_log h (ExtendsTo s) (λ l st n tag bytes q. (
          q.0 ++ entry_for h tag bytes n ∷ [],
          q.1 ++ new_records h n tag bytes,
          more_log s.log l q.0 _ q.2,
          more_store h s.store st q.1 n tag bytes q.3,
        )))
        a es ([], [], unextended s.log, unextended s.store)

  step-IsNumbered :
      (l : List ReplayEntry) (s : Option RoomReplayStore) (n tag : ℕ) (bytes : Bytes)
      → IsNumbered (record { log = some l; store = s; next_seq = n })
      → IsNumbered (record {
        log = some (l ++ entry_for h tag bytes n ∷ []);
        store = map_some (append_record h n tag bytes) s;
        next_seq = saturating_suc n;
      })
  step-IsNumbered l s n tag bytes q room =
      Ascends-append 0 (saturating_suc n) l (entry_for h tag bytes n) (q (ground arith))
        (ground arith)

  -- If the records on disk were numbered in order when the mux started, then in every state that the
  -- actor reaches before the numbers of 64 bits are used up, the sequence numbers rise strictly along
  -- the log and stay below the next one.
  pub log_is_numbered :
      (mux_id : String) (options : MuxOptions) (ext : E) (s : Subscriber) (es : List Event)
      → StoreAscends options.replay_store
      → (reach h x mux_id options ext s es).mux.core.next_replay_seq < u64_max
      → let c = (reach h x mux_id options ext s es).mux.core in
        LogAscends c.replay_log c.next_replay_seq
  log_is_numbered mux_id options ext s es stored room =
      keep_reachable x k (λ c. IsNumbered (transcript c)) (keep_log h IsNumbered step-IsNumbered)
        mux_id options ext s es (new-IsNumbered h mux_id options stored) room
