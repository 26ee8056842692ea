-- ===== src/Rooms/Views/Groups.antt =====
-- crates/rooms/src/extension/attach_views.rs: the turns of a history, newest first.
use acp_mux.Base.{Bool, ◌||◌, List, [], ◌∷◌, ◌++◌, Option, none, some, if◌then◌else◌, ◌==◌, eq_text}
use acp_mux.Attach.{HistoryEntry}

abbrev pub starts_turn : HistoryEntry → Bool
starts_turn e = e.method == "rooms/turn_started"

abbrev pub ends_turn : HistoryEntry → Bool
ends_turn e = (e.method == "rooms/turn_complete") || (e.method == "rooms/turn_cancelled")

-- The variables of the loop.
pub record Grouping : Type 0 where
  pub groups : List (List HistoryEntry)
  pub prefix : List HistoryEntry
  pub current : Option (List HistoryEntry)

abbrev pub close_group : Grouping → List (List HistoryEntry)
close_group g = elim g.current [ none ↦ g.groups | some group ↦ g.groups ++ group ∷ [] ]

unfoldable pub group_entry : HistoryEntry → Grouping → Grouping
group_entry e g =
    if starts_turn e
    then record g { groups = close_group g; current = some (e ∷ []) }
    else elim g.current [
      | none ↦ record g { prefix = g.prefix ++ e ∷ [] }
      | some group ↦
          if ends_turn e
          then record g { groups = g.groups ++ (group ++ e ∷ []) ∷ []; current = none }
          else record g { current = some (group ++ e ∷ []) }
    ]

unfoldable pub group_entries : List HistoryEntry → Grouping → Grouping
group_entries [] g = g
group_entries (e ∷ es) g = group_entries es (group_entry e g)

abbrev pub no_groups : Grouping
no_groups = record { groups = []; prefix = []; current = none }

unfoldable pub turn_groups : List HistoryEntry → List HistoryEntry × List (List HistoryEntry)
unfolding group_entries group_entry
turn_groups history = let g = group_entries history no_groups in (g.prefix, close_group g)

-- `extend`, from the last group to the first.
unfoldable pub append_reversed : List HistoryEntry → List (List HistoryEntry) → List HistoryEntry
append_reversed out [] = out
append_reversed out (g ∷ gs) = append_reversed out gs ++ g

unfoldable pub newest_turn_first_history : List HistoryEntry → List HistoryEntry
unfolding turn_groups append_reversed
newest_turn_first_history history = let r = turn_groups history in append_reversed r.0 r.1
