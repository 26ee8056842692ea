-- ===== src/Rooms/Metadata.antt =====
-- crates/rooms/src/extension/mod.rs and queue.rs: `object_params`, `object_field`, and what is written
-- under `_meta.rooms` by them.
use acp_mux.Base.{ℕ, String, Option, none, some, map_some, unwrap_or}
use acp_mux.Json.{Value, Fields, obj, str, num, pos_int, end, get_key, insert_key}
use acp_mux.Jsonrpc.{IncomingRequest}
use acp_mux.Rooms.Frames.{formatted_turn}

-- The object under a key, made if it is missing, is changed; none if there is another value.
abbrev pub into_object : Option Value → (Fields → Option Fields) → Option Fields
into_object none f = f end
into_object (some (obj fs)) f = f fs
into_object (some _) f = none

unfoldable pub update_object : String → (Fields → Option Fields) → Fields → Option Fields
update_object key f fs = map_some (λ g. insert_key key (obj g) fs) (into_object (get_key key fs) f)

-- `_meta.rooms`, of an object.
unfoldable pub update_rooms_meta : (Fields → Fields) → Fields → Option Fields
unfolding update_object
update_rooms_meta f = update_object "_meta" (update_object "rooms" (λ fs. some (f fs)))

abbrev pub insert_some : String → Option Value → Fields → Fields
insert_some k none fs = fs
insert_some k (some v) fs = insert_key k v fs

pub record RequestTrace : Type 0 where
  pub peer_id : String
  pub peer_name : Option String
  pub role : Option String
  pub mux_id : ℕ
  pub rooms_turn_id : Option ℕ

abbrev pub trace_fields : RequestTrace → Fields → Fields
trace_fields t fs =
    insert_some "roomsTurnId" (map_some (λ n. str (formatted_turn n)) t.rooms_turn_id) (
      insert_key "muxId" (num (pos_int t.mux_id)) (
        insert_some "role" (map_some str t.role) (
          insert_some "peerName" (map_some str t.peer_name)
            (insert_key "peerId" (str t.peer_id) fs))))

-- Missing parameters become an object; other parameters than an object are left as they are.
unfoldable pub inject_request_trace_metadata : RequestTrace → IncomingRequest → IncomingRequest
unfolding update_rooms_meta
inject_request_trace_metadata t req =
    unwrap_or
      (map_some (λ fs. record req { params = some (obj fs) })
        (into_object req.params (update_rooms_meta (trace_fields t))))
      req
