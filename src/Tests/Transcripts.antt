-- ===== src/Tests/Transcripts.antt =====
-- The theorems on the replay, in a mux whose agent has sent an update.
use acp_mux.Mux.Run.{run}
use acp_mux.Core.Send.{broadcast}
use acp_mux.Mux.Proofs.Transcript.{LogAscends, ExtendsTo, log_is_numbered, run-ExtendsTo}
use acp_mux.Mux.Proofs.Replay.{newcomer_gets_log, join-broadcast_comm}
use acp_mux.Extension.{over_core, noop-KeepsToCtx}
use acp_mux.Base.{
  ◌≡◌, refl, List, [], ◌∷◌, ◌++◌, map, none, some, ◌<◌, u64_max, arith, eq_text, ◌≢◌,
}
use acp_mux.Base.Map
use acp_mux.Core.{Subscriber, frame, ReplayEntry}
use acp_mux.Mux.Attach.{attach}
use acp_mux.Mux.Steps.OfLog.{transcript}
use acp_mux.Tests.{host, options, alice, bob, after, from_agent, from_alice, Event, noop}

abbrev updated : List Event
updated = from_agent 3 ∷ []

abbrev logged : List ReplayEntry
logged = record { frame = 3 ∷ []; recorded_at = "2026-01-01T00:00:00Z"; seq = 1; ext_tag = 0 } ∷ []

update_logged : (after updated).mux.core.replay_log ≡ some logged
unfolding after
update_logged = refl

bob_absent : Map.get "bob" (after updated).mux.core.subscribers ≡ none
unfolding after
bob_absent = refl

next_is_two : (after updated).mux.core.next_replay_seq ≡ 2
unfolding after
next_is_two = refl

numbers_left : (after updated).mux.core.next_replay_seq < u64_max
numbers_left = rw next_is_two (omega arith)

other_peer : alice.peer_id ≢ bob.peer_id
other_peer e = cc ((eq_text.alike_iff alice.peer_id bob.peer_id).1 e)

join-broadcast_comm_example :
    let m = (after updated).mux in
    Map.get "bob" (attach noop bob (over_core (broadcast host (5 ∷ [])) m)).0.core.subscribers
    ≡ Map.get "bob" (broadcast host (5 ∷ []) (attach noop bob m).0.core).subscribers
join-broadcast_comm_example =
    join-broadcast_comm host bob (after updated).mux (5 ∷ []) logged bob_absent refl refl
      update_logged "bob"

newcomer_gets_log_example :
    let m' = (attach noop bob (after updated).mux).0 in
    (s' : Subscriber) × (Map.get "bob" m'.core.subscribers ≡ some s')
    × (s'.outbound.sent ≡ [] ++ map (λ (e : ReplayEntry). frame e.frame) logged)
    × (Map.get "alice" m'.core.subscribers ≡ Map.get "alice" (after updated).mux.core.subscribers)
newcomer_gets_log_example =
    newcomer_gets_log bob (after updated).mux logged "alice" bob_absent refl refl update_logged
      other_peer

log_is_numbered_example :
    LogAscends (after updated).mux.core.replay_log (after updated).mux.core.next_replay_seq
unfolding after
log_is_numbered_example =
    log_is_numbered noop (noop-KeepsToCtx host) "mux" options tt alice updated tt numbers_left

run-ExtendsTo_example :
    ExtendsTo
      (transcript (after updated).mux.core)
      (transcript (run host noop (after updated) (from_alice 3 ∷ from_agent 1 ∷ [])).mux.core)
run-ExtendsTo_example =
    run-ExtendsTo noop (noop-KeepsToCtx host) (after updated) (from_alice 3 ∷ from_agent 1 ∷ [])
