-- ===== src/Rooms/Server.antt =====
-- crates/rooms/src/server.rs: the attach query of a room, with the deprecated name of its parameter, and
-- the debug view of a room. The tasks of a connection are those of the mux's own server.
use acp_mux.Base.{
  ℕ, String, Bool, false, not, ◌&&◌, List, [], ◌∷◌, ◌++◌, Option, none, some, leb, length, ◌==◌,
  eq_text, eq_nat, and_then,
}
use acp_mux.Json.{
  Value, Items, Fields, bool, arr, obj, nil, item, end, field, get_key, insert_key, get_field,
  as_str,
}
use acp_mux.Host.{Host, is_empty}
use acp_mux.Jsonrpc.{Result, ok, err}
use acp_mux.Attach.{items_of}
use acp_mux.Mux.Snapshot.{count}
use acp_mux.Core.{Subscriber}
use acp_mux.Mux.Run.{detaches, take}
use acp_mux.Registry.{
  MuxHandle, RegistryError, agent_cmd_missing, peer_id_in_use, agent_spawn, actor_unreachable,
}
use acp_mux.Server.{
  Connection, served, closed_by, closed_with, WsMessage, ws_in_task, close_code_bad_query,
  close_code_internal, close_code_peer_conflict, all, is_id_byte, ok_or, check, skip_of, ◌>>=◌,
  ◌>>◌,
}

abbrev pub room_id_max_len : ℕ
room_id_max_len = 128

pub record AttachQuery : Type 0 where
  pub room : Option String
  pub session : Option String
  pub peer_id : Option String
  pub peer_name : Option String
  pub role : Option String
  pub replay : Option String

pub record ValidatedAttach : Type 0 where
  pub room : String
  pub peer_id : String
  pub peer_name : Option String
  pub role : Option String
  pub skip_legacy_replay : Bool

-- `?session=` is accepted in place of `?room=`.
unfoldable pub room_of : Option String → Option String → Result String String
room_of (some r) (some s) = err "specify either ?room or ?session, not both"
room_of (some r) none = ok r
room_of none (some legacy) = ok legacy
room_of none none = err "missing ?room"

abbrev pub refusal : RegistryError → ℕ × String
refusal peer_id_in_use = (close_code_peer_conflict, "peer_id already attached to this room")
refusal agent_cmd_missing = (close_code_internal, "server has no --agent-cmd configured")
refusal agent_spawn = (close_code_internal, "agent spawn failed")
refusal actor_unreachable = (close_code_internal, "room unreachable")

abbrev pub subscriber_of : ValidatedAttach → Subscriber
subscriber_of v = record {
  peer_id = v.peer_id;
  peer_name = v.peer_name;
  role = v.role;
  suppress_legacy_replay = v.skip_legacy_replay;
  outbound = record { closed = false; sent = [] };
}

module _ (h : Host) where
  unfoldable pub is_valid_room_id : String → Bool
  is_valid_room_id s =
      not (is_empty (h.as_bytes s))
      && leb (length (h.as_bytes s)) room_id_max_len
      && all is_id_byte (h.as_bytes s)

  unfoldable pub validate : AttachQuery → Result String ValidatedAttach
  unfolding is_valid_room_id room_of
  validate q = do
    room ← room_of q.room q.session
    check (is_valid_room_id room) "invalid ?room (expect ^[A-Za-z0-9_-]{1,128}$)"
    peer_id ← ok_or q.peer_id "missing ?peer_id"
    check (not (is_empty (h.as_bytes peer_id))) "empty ?peer_id"
    skip ← skip_of q.replay
    ok (record {
      room = room;
      peer_id = peer_id;
      peer_name = q.peer_name;
      role = q.role;
      skip_legacy_replay = skip;
    })

  abbrev pub serve : String → ℕ → List WsMessage → Result RegistryError MuxHandle → Connection
  serve peer accepted ms (err e) = closed_by (refusal e)
  serve peer accepted ms (ok handle) =
      served handle (take accepted (ws_in_task peer accepted ms ++ detaches peer ∷ []))

  unfoldable pub handle_attach :
      (String → Subscriber → Result RegistryError MuxHandle)
      → ℕ
      → List WsMessage
      → AttachQuery
      → Connection
  handle_attach attach accepted ms q = elim (validate q) [
    | err reason ↦ closed_with close_code_bad_query reason
    | ok v ↦ serve v.peer_id accepted ms (attach v.room (subscriber_of v))
  ]

-- `legacy_debug_room`: the names that the debug page had before.
unfoldable pub copy_key : String → String → Fields → Fields
copy_key from into fs = elim (get_key from fs) [ none ↦ fs | some v ↦ insert_key into v fs ]

abbrev pub is_driver : Option String → Value → Bool
is_driver driving s = elim (and_then (get_field s "peerId") as_str) [
  | none ↦ false
  | some peer ↦ elim driving [ none ↦ false | some d ↦ d == peer ]
]

abbrev pub mark_driving : Option String → Value → Value
mark_driving driving (obj fs) = obj (insert_key "isDriving" (bool (is_driver driving (obj fs))) fs)
mark_driving driving v = v

unfoldable pub mark_all : Option String → Items → Items
mark_all driving nil = nil
mark_all driving (item v vs) = item (mark_driving driving v) (mark_all driving vs)

abbrev pub mark_array : Option String → Value → Value
mark_array driving (arr vs) = arr (mark_all driving vs)
mark_array driving v = v

unfoldable pub mark_subscribers : Fields → Fields
unfolding mark_all
mark_subscribers fs =
    let driving = and_then (get_key "drivingSubscriber" fs) as_str in
    elim (get_key "subscribers" fs) [
      | none ↦ fs
      | some v ↦ insert_key "subscribers" (mark_array driving v) fs
    ]

unfoldable pub legacy_debug_room : Value → Value
unfolding mark_subscribers copy_key
legacy_debug_room (obj fs) =
    obj (
      mark_subscribers (copy_key "promptInFlight" "activeTurnMuxId" (copy_key "muxId" "roomId" fs)))
legacy_debug_room v = v

-- The page of all rooms, from the JSON of their snapshots.
unfoldable pub debug_sessions : List Value → Value
unfolding legacy_debug_room
debug_sessions snapshots = obj (
    field "rooms" (arr (items_of legacy_debug_room snapshots))
      (count "roomCount" (length snapshots) end))
