-- ===== src/Rooms/Proofs/Index.antt =====
-- The index of sessions that the rooms of a server share.
use acp_mux.Base.{
  ◌≡◌, refl, ◌∙◌, String, false, Option, some, inl, inr, Bool-cases, ◌==◌, eq_text, length, nat_eq,
  ==_refl, if◌then◌else◌, none,
}
use acp_mux.Base.Map
use acp_mux.Core.{MuxCore}
use acp_mux.Rooms.{SessionListIndex, SessionListRoomsMetadata}
use acp_mux.Rooms.Presence.{is_room, remove_if_room, published, cleared}

-- What stays of an entry once the room has taken back its own.
abbrev pub without : String → Option SessionListRoomsMetadata → Option SessionListRoomsMetadata
without room entry = if is_room entry room then none else entry

get-remove_if_room :
    (session other room : String) (index : SessionListIndex)
    → (session == other) ≡ false
    → (Map.get other (remove_if_room session room index) ≡ Map.get other index)
      × (Map.get session (remove_if_room session room index) ≡ without room (Map.get session index))
unfolding remove_if_room
get-remove_if_room session other room index apart =
    elim (Bool-cases (is_room (Map.get session index) room)) [
      | inl own ↦ rw own (
        Map.get-remove session other index ∙ rw apart refl,
        Map.get-remove session session index ∙ rw (==_refl session) refl,
      )
      | inr foreign ↦ rw foreign (refl, refl)
    ]

-- A room changes the index of sessions under its own session alone, whether it publishes or clears its
-- entry. With somebody attached it publishes itself there with their number and the driver. With nobody
-- attached, and when it clears, its own entry is gone, and one that another room has put there stays.
pub get-published :
    (c : MuxCore) (driver : Option String) (session other : String) (index : SessionListIndex)
    → c.canonical_session_id ≡ some session
    → (session == other) ≡ false
    → (Map.get other (published c driver index) ≡ Map.get other index)
      × (Map.get other (cleared c index) ≡ Map.get other index)
      × (Map.get session (published c driver index) ≡ (
          if nat_eq (length c.subscribers) 0
          then without c.mux_id (Map.get session index)
          else some (record {
            room_id = c.mux_id;
            subscriber_count = length c.subscribers;
            driving_subscriber = driver;
          })))
      × (Map.get session (cleared c index) ≡ without c.mux_id (Map.get session index))
unfolding published cleared
get-published c driver session other index named apart =
    let taken = get-remove_if_room session other c.mux_id index apart in
    rw named (elim (Bool-cases (nat_eq (length c.subscribers) 0)) [
      | inl nobody ↦ rw nobody (taken.0, taken.0, taken.1, taken.1)
      | inr somebody ↦ rw somebody (
        Map.get-insert session other _ index ∙ rw apart refl,
        taken.0,
        Map.get-insert session session _ index ∙ rw (==_refl session) refl,
        taken.1,
      )
    ])
