-- ===== src/Rooms/Presence.antt =====
-- crates/rooms/src/extension/presence.rs, and the index of sessions of mod.rs.
use acp_mux.Base.{
  String, Bool, false, Option, none, some, map_some, is_some, unwrap_or, and_then, if◌then◌else◌,
  ◌==◌, eq_text, length, nat_eq, not,
}
use acp_mux.Base.Map
use acp_mux.Json.{
  Value, Items, Fields, obj, arr, str, num, pos_int, nil, item, get_key, insert_key, remove_key,
  str_param,
}
use acp_mux.Jsonrpc.{IncomingResponse}
use acp_mux.Core.{MuxCore}
use acp_mux.Extension.{Mux}
use acp_mux.Rooms.{RoomsExtension, SessionListRoomsMetadata, SessionListIndex}
use acp_mux.Rooms.Metadata.{update_rooms_meta}
use acp_mux.Mux.Session.{same_text}

abbrev pub is_room : Option SessionListRoomsMetadata → String → Bool
is_room none room = false
is_room (some m) room = m.room_id == room

unfoldable pub remove_if_room : String → String → SessionListIndex → SessionListIndex
remove_if_room session room index =
    if is_room (Map.get session index) room then Map.remove session index else index

-- What the room publishes under its canonical session; nobody attached takes the entry back.
unfoldable pub published : MuxCore → Option String → SessionListIndex → SessionListIndex
unfolding remove_if_room
published c driver index = elim c.canonical_session_id [
  | none ↦ index
  | some session ↦
      if nat_eq (length c.subscribers) 0
      then remove_if_room session c.mux_id index
      else Map.insert session
          (record {
            room_id = c.mux_id;
            subscriber_count = length c.subscribers;
            driving_subscriber = driver;
          })
          index
]

unfoldable pub cleared : MuxCore → SessionListIndex → SessionListIndex
cleared c index = elim c.canonical_session_id [
  | none ↦ index
  | some session ↦ remove_if_room session c.mux_id index
]

abbrev pub over_ext : (RoomsExtension → RoomsExtension) → Mux RoomsExtension → Mux RoomsExtension
over_ext f m = record m { ext = f m.ext }

unfoldable pub publish_session_list_metadata : Mux RoomsExtension → Mux RoomsExtension
publish_session_list_metadata m =
    over_ext
      (λ r. record r {
        session_list_index = published m.core r.driving_subscriber_peer_id r.session_list_index;
      })
      m

unfoldable pub clear_session_list_metadata : Mux RoomsExtension → Mux RoomsExtension
clear_session_list_metadata m =
    over_ext (λ r. record r { session_list_index = cleared m.core r.session_list_index }) m

abbrev pub set_driver : Option String → Mux RoomsExtension → Mux RoomsExtension
set_driver peer m = over_ext (λ r. record r { driving_subscriber_peer_id = peer }) m

-- Only a subscriber drives, and a new driver is published.
unfoldable pub note_driving_subscriber : String → Mux RoomsExtension → Mux RoomsExtension
note_driving_subscriber peer m =
    if not (is_some (Map.get peer m.core.subscribers))
    then m
    else if same_text m.ext.driving_subscriber_peer_id peer
    then m
    else publish_session_list_metadata (set_driver (some peer) m)

abbrev pub metadata_fields : SessionListRoomsMetadata → Fields → Fields
metadata_fields meta fs =
    let counted =
      insert_key "subscriberCount" (num (pos_int meta.subscriber_count))
        (insert_key "roomId" (str meta.room_id) fs) in
    elim meta.driving_subscriber [
      | some driver ↦ insert_key "drivingSubscriber" (str driver) counted
      | none ↦ remove_key "drivingSubscriber" counted
    ]

unfoldable pub inject_session_list_rooms_metadata : SessionListRoomsMetadata → Value → Value
inject_session_list_rooms_metadata meta (obj fs) =
    obj (unwrap_or (update_rooms_meta (metadata_fields meta) fs) fs)
inject_session_list_rooms_metadata meta v = v

abbrev pub inject_some : Option SessionListRoomsMetadata → Value → Value
inject_some none v = v
inject_some (some meta) v = inject_session_list_rooms_metadata meta v

-- A session that the index knows is decorated.
unfoldable pub decorate_session : SessionListIndex → Value → Value
decorate_session index v =
    inject_some (and_then (str_param (some v) "sessionId") (λ id. Map.get id index)) v

unfoldable pub decorate_sessions : SessionListIndex → Items → Items
decorate_sessions index nil = nil
decorate_sessions index (item v vs) = item (decorate_session index v) (decorate_sessions index vs)

abbrev pub decorate_field : SessionListIndex → Fields → Option Value → Fields
decorate_field index fs (some (arr vs)) =
    insert_key "sessions" (arr (decorate_sessions index vs)) fs
decorate_field index fs other = fs

abbrev pub decorate_result : SessionListIndex → Value → Value
decorate_result index (obj fs) = obj (decorate_field index fs (get_key "sessions" fs))
decorate_result index v = v

unfoldable pub decorate_session_list_response : RoomsExtension → IncomingResponse → IncomingResponse
unfolding decorate_sessions
decorate_session_list_response r resp = record resp {
  result = map_some (decorate_result r.session_list_index) resp.result;
}
