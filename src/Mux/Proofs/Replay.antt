-- ===== src/Mux/Proofs/Replay.antt =====
-- Replay to a newcomer, where the extension leaves the frames alone.
use acp_mux.Base.{
  ◌≡◌, refl, sym, ap, ◌∙◌, ◌≢◌, String, Bool, true, false, List, [], ◌∷◌, ◌++◌, Option, none, some,
  map, map_some, ◌==◌, ==_refl, eq_text, arith, if◌then◌else◌,
}
use acp_mux.Base.Map
use mathlib.Core.List.{append-nil, append_assoc}
use acp_mux.Host.{Host, Bytes}
use acp_mux.Core.{OutMsg, frame, Subscriber, ReplayEntry, MuxCore}
use acp_mux.Core.Send.{send, send_sub, send_all, send_one, send_to, broadcast, record_frame}
use acp_mux.Extension.{Mux, noop, over_core}
use acp_mux.Mux.Steps.OfLog.{entry_for}
use acp_mux.Mux.Attach.{attach, join, replay, insert_subscriber, replay_snapshot}

abbrev pub Subscribers : Type 0
Subscribers = List (String × Subscriber)

-- What a subscriber has after these frames were sent to it in turn.
pub after_frames : List ReplayEntry → Subscriber → Subscriber
after_frames [] s = s
after_frames (e ∷ es) s = after_frames es (send_sub (frame e.frame) s)

get-send_all :
    (j : String) (msg : OutMsg) (m : Subscribers)
    → Map.get j (send_all msg m) ≡ map_some (send_sub msg) (Map.get j m)
unfolding Map.get send_all
get-send_all j msg [] = refl
get-send_all j msg ((k, s) ∷ m) = ground (arith, get-send_all j msg m)

get-send_one :
    (p j : String) (msg : OutMsg) (m : Subscribers)
    → Map.get j (send_one p msg m)
      ≡ (if p == j then map_some (send_sub msg) (Map.get j m) else Map.get j m)
unfolding Map.get send_one
get-send_one p j msg [] = ground arith
get-send_one p j msg ((k, s) ∷ m) = ground (
  arith,
  eq_text.alike_iff k p,
  eq_text.alike_iff k j,
  eq_text.alike_iff p j,
  get-send_one p j msg m,
)

closed-after :
    (es : List ReplayEntry) (s : Subscriber)
    → (after_frames es s).outbound.closed ≡ s.outbound.closed
unfolding after_frames send
closed-after [] s = refl
closed-after (e ∷ es) s = ground (arith, closed-after es (send_sub (frame e.frame) s))

after-append :
    (es : List ReplayEntry) (e : ReplayEntry) (s : Subscriber)
    → after_frames (es ++ e ∷ []) s ≡ send_sub (frame e.frame) (after_frames es s)
unfolding after_frames
after-append [] e s = refl
after-append (d ∷ es) e s = after-append es e (send_sub (frame d.frame) s)

sent-after :
    (es : List ReplayEntry) (s : Subscriber)
    → s.outbound.closed ≡ false
    → (after_frames es s).outbound.sent
      ≡ s.outbound.sent ++ map (λ (e : ReplayEntry). frame e.frame) es
unfolding after_frames send
sent-after [] s open_ = sym (append-nil s.outbound.sent)
sent-after (e ∷ es) s open_ =
    let s' = send_sub (frame e.frame) s in
    sent-after es s' (ground arith)
    ∙ ground (
      arith,
      append_assoc s.outbound.sent (frame e.frame ∷ [])
          (map (λ (d : ReplayEntry). frame d.frame) es),
    )

closed-send :
    (s : Subscriber) (msg : OutMsg)
    → s.outbound.closed ≡ false
    → (send_sub msg s).outbound.closed ≡ false
unfolding send
closed-send s msg e = ground arith

get-sent :
    (p : String) (s : Subscriber) (msg : OutMsg) (m : Subscribers)
    → Map.get p m ≡ some s
    → Map.get p (send_one p msg m) ≡ some (send_sub msg s)
get-sent p s msg m found = rw (get-send_one p p msg m, found, ==_refl p)

get-replay :
    (p j : String) (es : List ReplayEntry) (s : Subscriber) (m : Mux (Unit {0}))
    → Map.get p m.core.subscribers ≡ some s
    → s.outbound.closed ≡ false
    → Map.get j (replay noop p es m).core.subscribers
      ≡ (if p == j then some (after_frames es s) else Map.get j m.core.subscribers)
unfolding replay after_frames send_to
get-replay p j [] s m found open_ = ground (arith, eq_text.alike_iff p j)
get-replay p j (e ∷ es) s m found open_ =
    let msg = frame e.frame in
    let s' = send_sub msg s in
    let m' = over_core (send_to p e.frame) m in
    let found' : Map.get p m'.core.subscribers ≡ some s' =
      get-sent p s msg m.core.subscribers found in
    let open' : s'.outbound.closed ≡ false = closed-send s msg open_ in
    rw (found, replay)
      (rw open_ (
        get-replay p j es s' m' found' open'
        ∙ ground (arith, eq_text.alike_iff p j, get-send_one p j msg m.core.subscribers)))

replayed-log :
    (b : Bool) (o : Option (List ReplayEntry)) (log : List ReplayEntry)
    → b ≡ false
    → o ≡ some log
    → replay_snapshot b o ≡ log
replayed-log true o log e l = cc
replayed-log false o log e l = rw l

module _ (s : Subscriber) (m : Mux (Unit {0})) (new : Map.get s.peer_id m.core.subscribers ≡ none)
    (open_ : s.outbound.closed ≡ false) (replays : s.suppress_legacy_replay ≡ false) where
  get-attach :
      (j : String) (log : List ReplayEntry)
      → m.core.replay_log ≡ some log
      → Map.get j (attach noop s m).0.core.subscribers
        ≡ (if s.peer_id == j then some (after_frames log s) else Map.get j m.core.subscribers)
  unfolding attach join
  get-attach j log logged =
      let es = replay_snapshot s.suppress_legacy_replay m.core.replay_log in
      let inserted = over_core (insert_subscriber s) m in
      let found : Map.get s.peer_id inserted.core.subscribers ≡ some s =
        rw (Map.get-insert s.peer_id s.peer_id s m.core.subscribers, ==_refl s.peer_id) in
      let same : es ≡ log =
        replayed-log s.suppress_legacy_replay m.core.replay_log log replays logged in
      let replayed = get-replay s.peer_id j es s inserted found open_ in
      rw (new, attach)
        (replayed
          ∙ ground (
            arith,
            same,
            eq_text.alike_iff s.peer_id j,
            Map.get-insert s.peer_id j s m.core.subscribers,
          ))

-- In a mux with the default extension that keeps a log: a newcomer with an open channel and an id that is
-- not attached, which does not skip the replay, is sent the frames of the log, all of them and in order,
-- behind what it was sent before; no other subscriber is sent anything.
pub newcomer_gets_log :
    (s : Subscriber) (m : Mux (Unit {0})) (log : List ReplayEntry) (j : String)
    → Map.get s.peer_id m.core.subscribers ≡ none
    → s.outbound.closed ≡ false
    → s.suppress_legacy_replay ≡ false
    → m.core.replay_log ≡ some log
    → j ≢ s.peer_id
    → let m' = (attach noop s m).0 in
      (s' : Subscriber) × (Map.get s.peer_id m'.core.subscribers ≡ some s')
      × (s'.outbound.sent ≡ s.outbound.sent ++ map (λ (e : ReplayEntry). frame e.frame) log)
      × (Map.get j m'.core.subscribers ≡ Map.get j m.core.subscribers)
newcomer_gets_log s m log j new open_ replays logged other = (
  after_frames log s,
  get-attach s m new open_ replays s.peer_id log logged ∙ rw (==_refl s.peer_id),
  sent-after log s open_,
  get-attach s m new open_ replays j log logged ∙ ground (arith, eq_text.alike_iff s.peer_id j),
)

module _ (h : Host) where
  subscribers-record :
      (bytes : Bytes) (log : Option (List ReplayEntry)) (c : MuxCore)
      → (record_frame h bytes log c).subscribers ≡ c.subscribers
  unfolding record_frame
  subscribers-record bytes none c = refl
  subscribers-record bytes (some log) c = refl

  get-broadcast :
      (bytes : Bytes) (j : String) (c : MuxCore)
      → Map.get j (broadcast h bytes c).subscribers
        ≡ map_some (send_sub (frame bytes)) (Map.get j c.subscribers)
  unfolding broadcast
  get-broadcast bytes j c =
      rw (subscribers-record bytes c.replay_log c) (get-send_all j (frame bytes) c.subscribers)

  log-broadcast :
      (bytes : Bytes) (log : List ReplayEntry) (c : MuxCore)
      → c.replay_log ≡ some log
      → (broadcast h bytes c).replay_log
        ≡ some (log ++ entry_for h c.replay_tag bytes c.next_replay_seq ∷ [])
  unfolding broadcast record_frame
  log-broadcast bytes log c logged = by_log c.replay_log logged
    where
      by_log :
          (o : Option (List ReplayEntry))
          → o ≡ some log
          → (record_frame h bytes o c).replay_log
            ≡ some (log ++ entry_for h c.replay_tag bytes c.next_replay_seq ∷ [])
      by_log none e = cc
      by_log (some l) e =
          ap (map_some (λ k. k ++ entry_for h c.replay_tag bytes c.next_replay_seq ∷ [])) e

  -- In a mux with the default extension that keeps a log: for a newcomer with an open channel and an id
  -- that is not attached, which does not skip the replay, to join before a broadcast or after it comes to
  -- the same for every peer. Such a newcomer misses no frame and gets none twice.
  pub join-broadcast_comm :
      (s : Subscriber) (m : Mux (Unit {0})) (bytes : Bytes) (log : List ReplayEntry)
      → Map.get s.peer_id m.core.subscribers ≡ none
      → s.outbound.closed ≡ false
      → s.suppress_legacy_replay ≡ false
      → m.core.replay_log ≡ some log
      → (j : String)
      → Map.get j (attach noop s (over_core (broadcast h bytes) m)).0.core.subscribers
        ≡ Map.get j (broadcast h bytes (attach noop s m).0.core).subscribers
  join-broadcast_comm s m bytes log new open_ replays logged j =
      let e = entry_for h m.core.replay_tag bytes m.core.next_replay_seq in
      let late = over_core (broadcast h bytes) m in
      let new' : Map.get s.peer_id late.core.subscribers ≡ none =
        get-broadcast bytes s.peer_id m.core ∙ ap (map_some (send_sub (frame bytes))) new in
      ground (
        arith,
        get-attach s late new' open_ replays j (log ++ e ∷ [])
            (log-broadcast bytes log m.core logged),
        get-attach s m new open_ replays j log logged,
        get-broadcast bytes j m.core,
        get-broadcast bytes j (attach noop s m).0.core,
        after-append log e s,
      )
