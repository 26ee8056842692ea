-- ===== src/Rooms/Proofs/Views/Order.antt =====
-- `turn_groups` and `newest_turn_first_history` of crates/rooms/src/extension/attach_views.rs.
use acp_mux.Base.{
  ◌≡◌, refl, sym, ap, ◌∙◌, subst, true, false, List, [], ◌∷◌, ◌++◌, Option, none, some, All,
  All-append, Bool-cases, inl, inr, eq_text,
}
use mathlib.Core.List.{append-nil, append_assoc, reverse, reverse-cons}
use acp_mux.Attach.{HistoryEntry}
use acp_mux.Rooms.Views.Groups.{
  starts_turn, ends_turn, Grouping, close_group, group_entry, group_entries, no_groups, turn_groups,
  append_reversed, newest_turn_first_history,
}

-- No entry that starts a turn.
abbrev pub IsQuiet : List HistoryEntry → Type 0
IsQuiet es = All (λ e. starts_turn e ≡ false) es

-- Entries after the first one, of which only the last may be a turn_complete or a turn_cancelled.
abbrev pub IsRest : List HistoryEntry → Type 0
IsRest [] = Unit
IsRest (e ∷ []) = starts_turn e ≡ false
IsRest (e ∷ f ∷ es) = (starts_turn e ≡ false) × (ends_turn e ≡ false) × IsRest (f ∷ es)

-- A group: the entry that starts a turn, and what follows up to the first turn_complete or
-- turn_cancelled. The later entries of a cancelled turn are in no group.
abbrev pub IsGroup : List HistoryEntry → Type 0
IsGroup [] = ⊥
IsGroup (e ∷ es) = (starts_turn e ≡ true) × IsRest es

-- A group that is not closed yet.
abbrev pub IsOpen : List HistoryEntry → Type 0
IsOpen [] = ⊥
IsOpen (e ∷ es) =
    (starts_turn e ≡ true) × All (λ f. (starts_turn f ≡ false) × (ends_turn f ≡ false)) es

abbrev pub IsOpenOr : Option (List HistoryEntry) → Type 0
IsOpenOr none = Unit
IsOpenOr (some c) = IsOpen c

abbrev pub IsGrouped : Grouping → Type 0
IsGrouped g = IsQuiet g.prefix × All IsGroup g.groups × IsOpenOr g.current

ended-IsRest :
    (es : List HistoryEntry) (e : HistoryEntry)
    → All (λ f. (starts_turn f ≡ false) × (ends_turn f ≡ false)) es
    → starts_turn e ≡ false
    → IsRest (es ++ e ∷ [])
ended-IsRest [] e a s = s
ended-IsRest (f ∷ []) e a s = (a.0.0, a.0.1, s)
ended-IsRest (f ∷ g ∷ es) e a s = (a.0.0, a.0.1, ended-IsRest (g ∷ es) e a.1 s)

open-IsRest :
    (es : List HistoryEntry)
    → All (λ f. (starts_turn f ≡ false) × (ends_turn f ≡ false)) es
    → IsRest es
open-IsRest [] a = tt
open-IsRest (f ∷ []) a = a.0.0
open-IsRest (f ∷ g ∷ es) a = (a.0.0, a.0.1, open-IsRest (g ∷ es) a.1)

open-IsGroup : (c : List HistoryEntry) → IsOpen c → IsGroup c
open-IsGroup [] o = o
open-IsGroup (e ∷ es) (s, a) = (s, open-IsRest es a)

ended-IsGroup :
    (c : List HistoryEntry) (e : HistoryEntry)
    → IsOpen c
    → starts_turn e ≡ false
    → IsGroup (c ++ e ∷ [])
ended-IsGroup [] e o s = absurd o
ended-IsGroup (f ∷ es) e o s = (o.0, ended-IsRest es e o.1 s)

longer-IsOpen :
    (c : List HistoryEntry) (e : HistoryEntry)
    → IsOpen c
    → starts_turn e ≡ false
    → ends_turn e ≡ false
    → IsOpen (c ++ e ∷ [])
longer-IsOpen [] e o s n = absurd o
longer-IsOpen (f ∷ es) e o s n = (o.0, All-append _ es (e ∷ []) o.1 ((s, n), tt))

closed-turns :
    (gs : List (List HistoryEntry)) (cur : Option (List HistoryEntry))
    → All IsGroup gs
    → IsOpenOr cur
    → All IsGroup (close_group (record { groups = gs; prefix = []; current = cur }))
closed-turns gs none w o = w
closed-turns gs (some c) w o = All-append IsGroup gs (c ∷ []) w (open-IsGroup c o, tt)

inside-IsGrouped :
    (e : HistoryEntry) (gs : List (List HistoryEntry)) (p : List HistoryEntry)
    (cur : Option (List HistoryEntry))
    → starts_turn e ≡ false
    → IsGrouped (record { groups = gs; prefix = p; current = cur })
    → IsGrouped (group_entry e (record { groups = gs; prefix = p; current = cur }))
unfolding group_entry
inside-IsGrouped e gs p none s w = rw s (All-append _ p (e ∷ []) w.0 (s, tt), w.1, tt)
inside-IsGrouped e gs p (some c) s w = elim (Bool-cases (ends_turn e)) [
  | inl n ↦ rw (s, n) (w.0, All-append IsGroup gs _ w.1 (ended-IsGroup c e w.2 s, tt), tt)
  | inr n ↦ rw (s, n) (w.0, w.1, longer-IsOpen c e w.2 s n)
]

entry-IsGrouped : (e : HistoryEntry) (g : Grouping) → IsGrouped g → IsGrouped (group_entry e g)
unfolding group_entry
entry-IsGrouped e g w = elim (Bool-cases (starts_turn e)) [
  | inl s ↦ rw s (w.0, closed-turns g.groups g.current w.1 w.2, (s, tt))
  | inr s ↦ inside-IsGrouped e g.groups g.prefix g.current s w
]

entries-IsGrouped :
    (es : List HistoryEntry) (g : Grouping) → IsGrouped g → IsGrouped (group_entries es g)
unfolding group_entries
entries-IsGrouped [] g w = w
entries-IsGrouped (e ∷ es) g w = entries-IsGrouped es (group_entry e g) (entry-IsGrouped e g w)

entries-append :
    (xs ys : List HistoryEntry) (g : Grouping)
    → group_entries (xs ++ ys) g ≡ group_entries ys (group_entries xs g)
unfolding group_entries
entries-append [] ys g = refl
entries-append (x ∷ xs) ys g = entries-append xs ys (group_entry x g)

quiet-prefix :
    (es p : List HistoryEntry)
    → IsQuiet es
    → group_entries es (record { groups = []; prefix = p; current = none })
      ≡ record { groups = []; prefix = p ++ es; current = none }
unfolding group_entries group_entry
quiet-prefix [] p q =
    ap (λ r. record { groups = []; prefix = r; current = none }) (sym (append-nil p))
quiet-prefix (e ∷ es) p q =
    rw (q.0, quiet-prefix es (p ++ e ∷ []) q.1, append_assoc p (e ∷ []) es) refl

entry_starts :
    (e : HistoryEntry) (g : Grouping)
    → starts_turn e ≡ true
    → group_entry e g ≡ record g { groups = close_group g; current = some (e ∷ []) }
unfolding group_entry
entry_starts e g s = rw s refl

entry_joins :
    (e : HistoryEntry) (c p : List HistoryEntry) (gs : List (List HistoryEntry))
    → starts_turn e ≡ false
    → ends_turn e ≡ false
    → group_entry e (record { groups = gs; prefix = p; current = some c })
      ≡ record { groups = gs; prefix = p; current = some (c ++ e ∷ []) }
unfolding group_entry
entry_joins e c p gs s n = rw (s, n) refl

entry_last :
    (e : HistoryEntry) (c p : List HistoryEntry) (gs : List (List HistoryEntry))
    → starts_turn e ≡ false
    → let g = group_entry e (record { groups = gs; prefix = p; current = some c }) in
      (g.prefix ≡ p) × (close_group g ≡ gs ++ (c ++ e ∷ []) ∷ [])
unfolding group_entry
entry_last e c p gs s = elim (Bool-cases (ends_turn e)) [
  | inl n ↦ rw (s, n) (refl, refl)
  | inr n ↦ rw (s, n) (refl, refl)
]

-- The rest of a group goes to it.
rest-joins :
    (es c p : List HistoryEntry) (gs : List (List HistoryEntry))
    → IsRest es
    → let g = group_entries es (record { groups = gs; prefix = p; current = some c }) in
      (g.prefix ≡ p) × (close_group g ≡ gs ++ (c ++ es) ∷ [])
unfolding group_entries
rest-joins [] c p gs r = (refl, rw (append-nil c) refl)
rest-joins (e ∷ []) c p gs r = entry_last e c p gs r
rest-joins (e ∷ f ∷ es) c p gs r =
    let (same, joined) = rest-joins (f ∷ es) (c ++ e ∷ []) p gs r.2 in
    subst
      (λ g.
        ((group_entries (f ∷ es) g).prefix ≡ p)
        × (close_group (group_entries (f ∷ es) g) ≡ gs ++ (c ++ e ∷ f ∷ es) ∷ []))
      (sym (entry_joins e c p gs r.0 r.1))
      (same, joined ∙ ap (λ d. gs ++ d ∷ []) (append_assoc c (e ∷ []) (f ∷ es)))

turn-joins :
    (t : List HistoryEntry) (g : Grouping)
    → IsGroup t
    → ((group_entries t g).prefix ≡ g.prefix)
      × (close_group (group_entries t g) ≡ close_group g ++ t ∷ [])
unfolding group_entries
turn-joins [] g i = absurd i
turn-joins (e ∷ es) g (s, r) =
    subst
      (λ k.
        ((group_entries es k).prefix ≡ g.prefix)
        × (close_group (group_entries es k) ≡ close_group g ++ (e ∷ es) ∷ []))
      (sym (entry_starts e g s)) (rest-joins es (e ∷ []) g.prefix (close_group g) r)

reversed-groups :
    (p : List HistoryEntry) (gs : List (List HistoryEntry))
    → IsQuiet p
    → All IsGroup gs
    → let g = group_entries (append_reversed p gs) no_groups in
      (g.prefix ≡ p) × (close_group g ≡ reverse gs)
unfolding append_reversed
reversed-groups p [] q ts = rw (quiet-prefix p [] q) (refl, refl)
reversed-groups p (t ∷ gs) q (i, ts) =
    let before = group_entries (append_reversed p gs) no_groups in
    let (prefix, groups) = reversed-groups p gs q ts in
    let (same, joined) = turn-joins t before i in
    rw (entries-append (append_reversed p gs) t no_groups)
      (same ∙ prefix, joined ∙ ap (λ r. r ++ t ∷ []) groups ∙ sym (reverse-cons t gs))

-- The groups of any history are groups, and what comes before and between them starts none.
pub turn_groups-IsGroup :
    (history : List HistoryEntry)
    → IsQuiet (turn_groups history).0 × All IsGroup (turn_groups history).1
unfolding turn_groups
turn_groups-IsGroup history =
    let g = group_entries history no_groups in
    let w = entries-IsGrouped history no_groups (tt, tt, tt) in
    (w.0, closed-turns g.groups g.current w.1 w.2)

pub turn_groups-newest_first :
    (history : List HistoryEntry)
    → turn_groups (newest_turn_first_history history)
      ≡ ((turn_groups history).0, reverse (turn_groups history).1)
unfolding turn_groups newest_turn_first_history
turn_groups-newest_first history =
    let (quiet, whole) = turn_groups-IsGroup history in
    let (prefix, groups) =
      reversed-groups (turn_groups history).0 (turn_groups history).1 quiet whole in
    λ i. (prefix i, groups i)
