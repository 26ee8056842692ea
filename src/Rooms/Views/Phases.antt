-- ===== src/Rooms/Views/Phases.antt =====
-- crates/rooms/src/extension/mod.rs and attach_views.rs: the phases of a streamed replay, and the
-- payloads of the wakes that send them.
use acp_mux.Base.{
  ℕ, String, Bool, true, false, not, List, [], ◌∷◌, ◌++◌, Option, none, some, and_then, map_some,
  if◌then◌else◌, ◌==◌, eq_text, filter_map, length,
}
use acp_mux.Json.{
  Value, Items, pos_int, num, obj, arr, str, nil, item, end, field, get_key, remove_key, as_str,
}
use acp_mux.Jsonrpc.{◌>>=◌, ◌>>◌, require, struct_field, is_struct}
use acp_mux.Jsonrpc.Write.{opt_field}
use acp_mux.Attach.{HistoryEntry, items_of}
use acp_mux.Host.{Host, Bytes}
use acp_mux.Core.Send.{send_to}
use acp_mux.Extension.{Mux, over_core}
use acp_mux.Extension.Ctx.{schedule_wake}
use acp_mux.Rooms.{RoomsExtension}
use acp_mux.Rooms.Frames.{text_field, number_field, replay_started, replay_complete}
use acp_mux.Rooms.Views.Groups.{turn_groups}

pub record WakeReplayPhase : Type 0 where
  pub peer_id : String
  pub phase : String
  pub replay_order : String
  pub replay_generation : ℕ
  pub replay_boundary_seq : ℕ
  pub frames : List String

pub data WakePayload : Type 0 where
  replay_stream : List WakeReplayPhase → WakePayload
  pending_permissions : String → List String → WakePayload

-- The derived serialisers: the tag `kind` beside the fields of the variant.
unfoldable pub phase_to_value : WakeReplayPhase → Value
phase_to_value p = obj (
    text_field "peer_id" p.peer_id (
      text_field "phase" p.phase (
        text_field "replay_order" p.replay_order (
          number_field "replay_generation" p.replay_generation (
            number_field "replay_boundary_seq" p.replay_boundary_seq
              (field "frames" (arr (items_of str p.frames)) end))))))

unfoldable pub payload_to_value : WakePayload → Value
payload_to_value (replay_stream phases) =
    obj (
      text_field "kind" "replay_stream" (field "phases" (arr (items_of phase_to_value phases)) end))
payload_to_value (pending_permissions peer frames) = obj (
    text_field "kind" "pending_permissions"
      (text_field "peer_id" peer (field "frames" (arr (items_of str frames)) end)))

-- `Vec<T>`: an array of values that are all read.
unfoldable pub list_of_items {ℓ} : {A : Type ℓ} → (Value → Option A) → Items → Option (List A)
list_of_items read nil = some []
list_of_items read (item v vs) =
    let rest = list_of_items read vs in and_then (read v) (λ a. map_some (λ as'. a ∷ as') rest)

abbrev pub list_of_value {ℓ} : {A : Type ℓ} → (Value → Option A) → Value → Option (List A)
list_of_value read (arr vs) = list_of_items read vs
list_of_value read v = none

abbrev pub u64_of_value : Value → Option ℕ
u64_of_value (num (pos_int n)) = some n
u64_of_value v = none

unfoldable pub phase_of_value : Value → Option WakeReplayPhase
phase_of_value v = do
  require (is_struct v 6)
  peer_id ← struct_field v "peer_id" 0 >>= as_str
  phase ← struct_field v "phase" 1 >>= as_str
  replay_order ← struct_field v "replay_order" 2 >>= as_str
  replay_generation ← struct_field v "replay_generation" 3 >>= u64_of_value
  replay_boundary_seq ← struct_field v "replay_boundary_seq" 4 >>= u64_of_value
  frames ← struct_field v "frames" 5 >>= list_of_value as_str
  some (record {
    peer_id = peer_id;
    phase = phase;
    replay_order = replay_order;
    replay_generation = replay_generation;
    replay_boundary_seq = replay_boundary_seq;
    frames = frames;
  })

unfoldable pub stream_of_value : Value → Option WakePayload
stream_of_value v = do
  require (is_struct v 1)
  phases ← struct_field v "phases" 0 >>= list_of_value phase_of_value
  some (replay_stream phases)

unfoldable pub permissions_of_value : Value → Option WakePayload
permissions_of_value v = do
  require (is_struct v 2)
  peer_id ← struct_field v "peer_id" 0 >>= as_str
  frames ← struct_field v "frames" 1 >>= list_of_value as_str
  some (pending_permissions peer_id frames)

unfoldable pub variant_of_value : String → Value → Option WakePayload
unfolding stream_of_value permissions_of_value
variant_of_value kind v =
    if kind == "replay_stream"
    then stream_of_value v
    else if kind == "pending_permissions"
    then permissions_of_value v
    else none

-- A tagged enum reads its tag and gives the rest to the variant; in an array the tag is the first item.
unfoldable pub payload_of_value : Value → Option WakePayload
unfolding variant_of_value
payload_of_value (obj fs) = do
  kind ← get_key "kind" fs >>= as_str
  variant_of_value kind (obj (remove_key "kind" fs))
payload_of_value (arr (item (str kind) vs)) = variant_of_value kind (arr vs)
payload_of_value v = none

-- `entry_to_frame`.
unfoldable pub entry_to_frame : HistoryEntry → Value
entry_to_frame e =
    obj
      (text_field "jsonrpc" "2.0" (text_field "method" e.method (opt_field "params" e.params end)))

abbrev pub append_all {ℓ} : {A : Type ℓ} → List (List A) → List A
append_all [] = []
append_all (g ∷ gs) = g ++ append_all gs

abbrev pub no_entries {ℓ} : {A : Type ℓ} → List A → Bool
no_entries [] = true
no_entries (x ∷ xs) = false

module _ (h : Host) where
  unfoldable pub history_entries_to_frame_strings : List HistoryEntry → List String
  history_entries_to_frame_strings history =
      filter_map (λ e. h.to_string (entry_to_frame e)) history

  module _ (peer order : String) (generation boundary : ℕ) where
    abbrev pub phase_named : String → List HistoryEntry → WakeReplayPhase
    phase_named name entries = record {
      peer_id = peer;
      phase = name;
      replay_order = order;
      replay_generation = generation;
      replay_boundary_seq = boundary;
      frames = history_entries_to_frame_strings entries;
    }

    abbrev pub phases_of : List HistoryEntry → List (List HistoryEntry) → List WakeReplayPhase
    phases_of prefix [] = phase_named "latest_segment" prefix ∷ []
    phases_of prefix (latest ∷ older) =
        phase_named "latest_segment" (prefix ++ latest)
        ∷ (if no_entries (append_all older)
            then []
            else phase_named "backfill" (append_all older) ∷ [])

    unfoldable pub replay_stream_phases : List HistoryEntry → List WakeReplayPhase
    replay_stream_phases history =
        if not (order == "newest_turn_first")
        then phase_named "backfill" history ∷ []
        else let r = turn_groups history in phases_of r.0 r.1

  abbrev pub tell : String → Bytes → Mux RoomsExtension → Mux RoomsExtension
  tell peer bytes m = over_core (send_to peer bytes) m

  abbrev pub tell_all : String → List String → Mux RoomsExtension → Mux RoomsExtension
  tell_all peer [] m = m
  tell_all peer (f ∷ fs) m = tell_all peer fs (tell peer (h.as_bytes f) m)

  unfoldable pub send_replay_phase : WakeReplayPhase → Mux RoomsExtension → Mux RoomsExtension
  send_replay_phase p m =
      let marker = λ (build : String → String → String → ℕ → ℕ → ℕ → Bytes).
        build m.core.mux_id p.phase p.replay_order p.replay_generation p.replay_boundary_seq
          (length p.frames) in
      tell p.peer_id (marker (replay_complete h))
        (tell_all p.peer_id p.frames (tell p.peer_id (marker (replay_started h)) m))

  abbrev pub wake_with : Option Bytes → ℕ → Mux RoomsExtension → Mux RoomsExtension
  wake_with none delay m = m
  wake_with (some bytes) delay m = over_core (schedule_wake delay bytes) m

  -- The delay is in milliseconds.
  unfoldable pub schedule_wake_payload : ℕ → WakePayload → Mux RoomsExtension → Mux RoomsExtension
  schedule_wake_payload delay payload m = wake_with (h.to_vec (payload_to_value payload)) delay m

  abbrev pub schedule_rest : List WakeReplayPhase → Mux RoomsExtension → Mux RoomsExtension
  schedule_rest [] m = m
  schedule_rest (p ∷ ps) m = schedule_wake_payload 50 (replay_stream (p ∷ ps)) m

  unfoldable pub wake : WakePayload → Mux RoomsExtension → Mux RoomsExtension
  unfolding send_replay_phase schedule_wake_payload
  wake (replay_stream []) m = m
  wake (replay_stream (p ∷ ps)) m = schedule_rest ps (send_replay_phase p m)
  wake (pending_permissions peer frames) m = tell_all peer frames m

  unfoldable pub on_wake : Bytes → Mux RoomsExtension → Mux RoomsExtension
  unfolding wake payload_of_value
  on_wake payload m = elim (and_then (h.from_slice payload) payload_of_value) [
    | none ↦ m
    | some plan ↦ wake plan m
  ]
