-- ===== src/Rooms/Turns.antt =====
-- crates/rooms/src/extension/turns.rs: the frames at the start and at the end of a turn.
use acp_mux.Base.{ℕ, String, Option, and_then, unwrap_or}
use acp_mux.Base.{eq_text}
use acp_mux.Base.Map
use acp_mux.Json.{Value, get_field}
use acp_mux.Host.{Host, Bytes}
use acp_mux.Core.{MuxCore, Subscriber}
use acp_mux.Core.Send.{broadcast}
use acp_mux.Extension.{Mux, over_core}
use acp_mux.Rooms.{RoomsExtension}
use acp_mux.Rooms.Frames.{turn_started, turn_complete}

abbrev pub peer_name_of : MuxCore → String → Option String
peer_name_of c peer = and_then (Map.get peer c.subscribers) (λ (s : Subscriber). s.peer_name)

abbrev pub role_of : MuxCore → String → Option String
role_of c peer = and_then (Map.get peer c.subscribers) (λ (s : Subscriber). s.role)

-- `params.and_then(|p| p.get(key)).unwrap_or(&null)`.
abbrev pub field_or_null : Option Value → String → Value
field_or_null v key = unwrap_or (and_then v (λ p. get_field p key)) Value.null

module _ (h : Host) where
  abbrev pub say : Bytes → Mux RoomsExtension → Mux RoomsExtension
  say bytes m = over_core (broadcast h bytes) m

  unfoldable pub emit_turn_started :
      String → ℕ → Option Value → Option ℕ → Mux RoomsExtension → Mux RoomsExtension
  emit_turn_started peer turn params supersedes m =
      say
        (turn_started h m.core.mux_id turn peer (peer_name_of m.core peer) (role_of m.core peer)
          (field_or_null params "prompt") supersedes)
        m

  unfoldable pub emit_turn_complete : ℕ → Option Value → Mux RoomsExtension → Mux RoomsExtension
  emit_turn_complete turn result m =
      say (turn_complete h m.core.mux_id turn (field_or_null result "stopReason")) m
