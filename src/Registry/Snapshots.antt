-- ===== src/Registry/Snapshots.antt =====
-- crates/acp-mux/src/mux/registry.rs: `snapshot`, which asks each live mux for what it shows.
use acp_mux.Base.{
  suc, ◌≤◌, String, Bool, List, [], ◌∷◌, Option, none, some, if◌then◌else◌, length, get_elem?,
  filter_map, arith,
}
use acp_mux.Json.{Value}
use acp_mux.Extension.{Mux}
use acp_mux.Mux.Run.{running}
use acp_mux.Mux.Snapshot.{MuxSnapshot, build_snapshot}
use acp_mux.Registry.{World, MuxHandle, alive_entries, live_mux_count}

module _ {F E : Type 0} (debug_snapshot : Mux E → Value) where
  -- One mux: none if its channel is closed, if it has left its loop, or if it takes too long, which
  -- `in_time` decides.
  unfoldable pub ask_snapshot :
      (MuxHandle → Bool) → World F E → String × MuxHandle → Option MuxSnapshot
  ask_snapshot in_time w (id, handle) = elim (get_elem? w.tasks handle) [
    | none ↦ none
    | some t ↦ elim t.actor.status [
      | running ↦
          if in_time handle
          then some (build_snapshot debug_snapshot t.actor.ttl_active t.actor.mux)
          else none
      | _ ↦ none
    ]
  ]

  unfoldable pub snapshot : (MuxHandle → Bool) → World F E → List MuxSnapshot
  unfolding ask_snapshot
  snapshot in_time w = filter_map (ask_snapshot in_time w) (alive_entries w w.registry.muxes)

length-filter_map {ℓ κ} :
    {A : Type ℓ} {B : Type κ} (f : A → Option B) (xs : List A)
    → length (filter_map f xs) ≤ length xs
length-filter_map {B = B} f [] = omega arith
length-filter_map {B = B} f (x ∷ xs) = by_head (f x) (length-filter_map f xs)
  where
    by_head :
        (o : Option B)
        → length (filter_map f xs) ≤ length xs
        → length (elim o [ none ↦ filter_map f xs | some y ↦ y ∷ filter_map f xs ])
          ≤ suc (length xs)
    by_head none l = omega (arith, l)
    by_head (some y) l = omega (arith, l)

-- The page shows at most one entry for each live mux.
pub snapshot-le-live :
    {F E : Type 0} (debug_snapshot : Mux E → Value) (in_time : MuxHandle → Bool) (w : World F E)
    → length (snapshot debug_snapshot in_time w) ≤ live_mux_count w
unfolding snapshot live_mux_count
snapshot-le-live debug_snapshot in_time w =
    length-filter_map (ask_snapshot debug_snapshot in_time w) (alive_entries w w.registry.muxes)
