-- ===== src/Rooms/Proofs/Views/Wakes.antt =====
-- The payloads of wakes, crates/rooms/src/extension/mod.rs.
use acp_mux.Base.{◌≡◌, refl, List, [], ◌∷◌, Option, some}
use acp_mux.Json.{Value, str, as_str, get_key, remove_key}
use acp_mux.Jsonrpc.{is_struct, struct_field}
use acp_mux.Attach.{items_of}
use acp_mux.Rooms.Views.Phases.{
  WakeReplayPhase, WakePayload, replay_stream, pending_permissions, phase_to_value,
  payload_to_value, list_of_items, phase_of_value, payload_of_value, stream_of_value,
  permissions_of_value, variant_of_value,
}

-- A list is read back if each of its elements is.
list-items {ℓ} :
    {A : Type ℓ} (read : Value → Option A) (write : A → Value)
    → ((a : A) → read (write a) ≡ some a)
    → (as' : List A) → list_of_items read (items_of write as') ≡ some as'
unfolding list_of_items items_of
list-items read write reads [] = refl
list-items read write reads (a ∷ as') = rw (reads a, list-items read write reads as') refl

phase-read : (p : WakeReplayPhase) → phase_of_value (phase_to_value p) ≡ some p
unfolding phase_of_value phase_to_value is_struct struct_field get_key
phase-read p = rw (list-items as_str str (λ s. refl) p.frames) refl

-- The plan of a wake is read back as it was written, whatever phases or frames it holds.
pub payload_of_value-to_value : (p : WakePayload) → payload_of_value (payload_to_value p) ≡ some p
unfolding payload_of_value payload_to_value variant_of_value stream_of_value permissions_of_value
    get_key is_struct struct_field remove_key
payload_of_value-to_value (replay_stream phases) =
    rw (list-items phase_of_value phase_to_value phase-read phases) refl
payload_of_value-to_value (pending_permissions peer frames) =
    rw (list-items as_str str (λ s. refl) frames) refl
