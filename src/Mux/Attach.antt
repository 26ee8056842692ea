-- ===== src/Mux/Attach.antt =====
-- crates/acp-mux/src/mux/actor.rs: `attach` and `detach`.
use acp_mux.Base.{
  String, Bool, true, false, List, [], ◌∷◌, Option, none, some, is_some, if◌then◌else◌, eq_text,
  unwrap_or,
}
use acp_mux.Base.Map
use acp_mux.Jsonrpc.{Result, ok, err}
use acp_mux.Core.{Subscriber, ReplayEntry, MuxCore}
use acp_mux.Core.Send.{send_to}
use acp_mux.Extension.{Mux, MuxExtension, over_core}

pub data AttachError : Type 0 where
  peer_id_in_use : AttachError

abbrev pub insert_subscriber : Subscriber → MuxCore → MuxCore
insert_subscriber s c = record c { subscribers = Map.insert s.peer_id s c.subscribers }

-- Whether a send to this subscriber fails.
abbrev pub is_gone : Option Subscriber → Bool
is_gone none = true
is_gone (some s) = s.outbound.closed

-- The frames that a newcomer is sent: the log as it stands before the newcomer is announced.
abbrev pub replay_snapshot : Bool → Option (List ReplayEntry) → List ReplayEntry
replay_snapshot true log = []
replay_snapshot false log = unwrap_or log []

module _ {E : Type 0} (x : MuxExtension E) where
  -- The extension may rewrite or skip each frame; the first failed send ends the replay.
  unfoldable pub replay : String → List ReplayEntry → Mux E → Mux E
  replay peer [] m = m
  replay peer (e ∷ es) m =
      let r = x.replay_frame m e in
      elim r.1 [
        | none ↦ replay peer es r.0
        | some bytes ↦ elim (is_gone (Map.get peer r.0.core.subscribers)) [
          | true ↦ r.0
          | false ↦ replay peer es (over_core (send_to peer bytes) r.0)
        ]
      ]

  unfoldable pub join : Subscriber → Mux E → Mux E
  join s m =
      let announced = x.on_subscriber_attaching m s in
      let joined = x.on_subscriber_attached (over_core (insert_subscriber s) announced) s.peer_id in
      replay s.peer_id (replay_snapshot s.suppress_legacy_replay m.core.replay_log) joined

  unfoldable pub attach : Subscriber → Mux E → Mux E × Result AttachError (Unit {0})
  unfolding join
  attach s m =
      if is_some (Map.get s.peer_id m.core.subscribers)
      then (m, err peer_id_in_use)
      else (join s m, ok tt)

  unfoldable pub detach : String → Mux E → Mux E
  detach peer m =
      if is_some (Map.get peer m.core.subscribers)
      then x.on_subscriber_detached
          (over_core (λ c. record c { subscribers = Map.remove peer c.subscribers }) m) peer
      else m
