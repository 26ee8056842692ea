-- ===== src/Rooms/Views.antt =====
-- crates/rooms/src/extension/attach_views.rs: which frames of the transcript a view shows, and how.
pub mod Groups
pub mod Phases
use acp_mux.Base.{
  ℕ, ◌+◌, String, Bool, true, false, ◌||◌, List, [], ◌∷◌, ◌++◌, Option, none, some, is_some,
  unwrap_or, and_then, map_some, any, if◌then◌else◌, ◌==◌, eq_text, nat_eq, filter_map, retain,
  last, wrapping_suc,
}
use acp_mux.Base.Map
use acp_mux.Json.{
  Value, Fields, obj, str, num, pos_int, get_key, get_field, insert_key, as_str, str_param,
}
use acp_mux.Attach.{AttachParams, HistoryEntry}
use acp_mux.Host.{Host, Bytes}
use acp_mux.Core.{MuxCore, ReplayEntry}
use acp_mux.Rooms.{RoomsExtension}
use acp_mux.Rooms.Frames.{formatted_turn}
use acp_mux.Rooms.Metadata.{update_object, update_rooms_meta}
use acp_mux.Mux.Local.{history_entry_of_value}

abbrev pub replay_entries : MuxCore → List ReplayEntry
replay_entries c = unwrap_or c.replay_log []

-- `PRE_SEGMENT_TAG`.
abbrev pub pre_segment_tag : ℕ
pre_segment_tag = 0

abbrev pub is_active : Option ℕ → ℕ → Bool
is_active none tag = false
is_active (some id) tag = nat_eq id tag

-- `value.pointer("/params/…")`.
abbrev pub param_of : Value → String → Option Value
param_of v key = and_then (get_field v "params") (λ p. get_field p key)

abbrev pub is_lifecycle : String → Bool
is_lifecycle method =
    (method == "rooms/turn_started")
    || (method == "rooms/turn_complete")
    || (method == "rooms/turn_cancelled")

unfoldable pub lifecycle_of_value : Value → Option String
lifecycle_of_value v =
    and_then (and_then (get_field v "method") as_str)
      λ method. if is_lifecycle method then and_then (param_of v "roomsTurnId") as_str else none

-- `attach_meta_str`.
unfoldable pub attach_meta_str : AttachParams → String → Option String
attach_meta_str params key = and_then params.meta λ meta. str_param (get_field meta "rooms") key

abbrev pub replay_fields : String → ℕ → Fields → Fields
replay_fields recorded_at seq fs =
    insert_key "replaySeq" (num (pos_int seq)) (insert_key "recordedAt" (str recorded_at) fs)

-- The value with its replay metadata, unless it has no place for them.
unfoldable pub with_replay_metadata : String → ℕ → Value → Option Value
with_replay_metadata recorded_at seq (obj fs) =
    map_some obj (update_object "params" (update_rooms_meta (replay_fields recorded_at seq)) fs)
with_replay_metadata recorded_at seq v = none

-- `*counts.entry(id).or_default() += 1`.
abbrev pub add_one : String → List (String × ℕ) → List (String × ℕ)
add_one id counts = Map.insert id (wrapping_suc (unwrap_or (Map.get id counts) 0)) counts

module _ (h : Host) where
  unfoldable pub turn_lifecycle_turn_id : Bytes → Option String
  unfolding lifecycle_of_value
  turn_lifecycle_turn_id bytes = and_then (h.from_slice bytes) lifecycle_of_value

  abbrev pub in_view : RoomsExtension → ℕ → Bool
  in_view r tag = nat_eq tag pre_segment_tag || is_active r.active_segment_id tag

  abbrev pub turns_in_view : RoomsExtension → List ReplayEntry → List String
  turns_in_view r log =
      filter_map
        (λ (e : ReplayEntry). if in_view r e.ext_tag then turn_lifecycle_turn_id e.frame else none)
        log

  -- The turns whose bookends are carried into the view: those seen in it, and the active one.
  unfoldable pub cross_segment_turn_carry : RoomsExtension → MuxCore → List String
  cross_segment_turn_carry r c =
      let seen = turns_in_view r (replay_entries c) in
      elim r.active_rooms_turn_id [ none ↦ seen | some turn ↦ formatted_turn turn ∷ seen ]

  abbrev pub is_carried : Option String → List String → Bool
  is_carried none carry = false
  is_carried (some turn) carry = any (λ (t : String). t == turn) carry

  unfoldable pub should_include_replay_entry : RoomsExtension → MuxCore → ReplayEntry → Bool
  unfolding cross_segment_turn_carry
  should_include_replay_entry r c e =
      if in_view r e.ext_tag
      then true
      else is_carried (turn_lifecycle_turn_id e.frame) (cross_segment_turn_carry r c)

  -- A frame that has no place for the metadata is shown as it is.
  unfoldable pub inject_replay_metadata : Bytes → String → ℕ → Bytes
  unfolding with_replay_metadata
  inject_replay_metadata frame recorded_at seq =
      unwrap_or
        (and_then (h.from_slice frame)
          λ v. and_then (with_replay_metadata recorded_at seq v) h.to_vec)
        frame

  unfoldable pub history_entry_from_replay : ReplayEntry → Option HistoryEntry
  history_entry_from_replay e =
      and_then (h.from_slice (inject_replay_metadata e.frame e.recorded_at e.seq))
        history_entry_of_value

  unfoldable pub replay_history : RoomsExtension → MuxCore → Bool → List HistoryEntry
  replay_history r c full_lineage =
      filter_map history_entry_from_replay
        (retain (λ e. full_lineage || should_include_replay_entry r c e) (replay_entries c))

  abbrev pub count_entries : RoomsExtension → MuxCore → List ReplayEntry → ℕ × ℕ
  count_entries r c [] = (0, 0)
  count_entries r c (e ∷ es) =
      let rest = count_entries r c es in
      if should_include_replay_entry r c e then (rest.0, rest.1 + 1) else (rest.0 + 1, rest.1)

  -- How many entries the view drops, and how many it retains.
  unfoldable pub replay_retention_counts : RoomsExtension → MuxCore → ℕ × ℕ
  replay_retention_counts r c = count_entries r c (replay_entries c)

  abbrev pub update_session : Value → Option String
  update_session v = and_then (and_then (get_field v "method") as_str) λ method.
      if method == "session/update" then and_then (param_of v "sessionId") as_str else none

  -- The session of an update that the view shows.
  unfoldable pub counted_session : RoomsExtension → MuxCore → ReplayEntry → Option String
  counted_session r c e =
      if should_include_replay_entry r c e
      then and_then (h.from_slice e.frame) update_session
      else none

  unfoldable pub count_sessions :
      RoomsExtension → MuxCore → List ReplayEntry → List (String × ℕ) → List (String × ℕ)
  count_sessions r c [] counts = counts
  count_sessions r c (e ∷ es) counts =
      count_sessions r c es
        (elim (counted_session r c e) [ none ↦ counts | some id ↦ add_one id counts ])

  unfoldable pub replay_update_counts_by_session : RoomsExtension → MuxCore → List (String × ℕ)
  replay_update_counts_by_session r c = count_sessions r c (replay_entries c) []
