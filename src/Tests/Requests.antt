-- ===== src/Tests/Requests.antt =====
-- The theorems on requests and turns, in a mux with one subscriber.
use acp_mux.Mux.Proofs.Ttl.{ttl_ends_alone}
use acp_mux.Mux.Run.{ttl_elapsed, no_one, ttl_expired, running}
use acp_mux.Core.{in_flight}
use acp_mux.Mux.Proofs.Session.{initialize_from_cache, session_from_cache}
use acp_mux.Mux.Inbound.{pending_for, push_outbox}
use acp_mux.Core.Send.{send_result_response}
use acp_mux.Core.{PendingRequest, in_flight}
use acp_mux.Extension.{over_core, noop-KeepsToCtx}
use acp_mux.Mux.Proofs.TurnEnd.{NoneInFlight, turn_end_settles}
use acp_mux.Mux.Proofs.Requests.{next_number_is_free, response_once, prompt_is_pending}
use acp_mux.Mux.Proofs.AgentRequests.{
  reused_id_unanswerable, state_of, IsAnswered, told, first_writer_wins,
}
use acp_mux.Base.{
  eq_nat, ◌≡◌, refl, List, [], ◌∷◌, ◌++◌, none, some, true, pos, is_some, if◌then◌else◌, ◌<◌, ◌≤◌,
  u64_max, arith,
}
use acp_mux.Base.Map
use acp_mux.Core
use acp_mux.Mux.Agent.{route_agent_response, handle_agent_request}
use acp_mux.Jsonrpc.{number, text, response, ok}
use acp_mux.Tests.{
  host, options, alice, after, from_agent, from_alice, approval, first_response, permission,
  initialize, session_new, Event, run, parse, noop, step, handle_inbound, Value,
  translate_outbound_request,
}

-- The frames that the host reads.
approval_read : parse host (1 ∷ []) ≡ ok (response approval)
unfolding after
approval_read = refl

-- The agent has asked for a permission.
asked_in_flight : state_of (text "perm-1") (after (from_agent 2 ∷ [])).mux.core ≡ some in_flight
unfolding after
asked_in_flight = refl

-- Alice has answered it.
asked-IsAnswered : IsAnswered (text "perm-1") (after (from_agent 2 ∷ from_alice 1 ∷ [])).mux.core
unfolding after
asked-IsAnswered = refl

first_writer_wins_example :
    let a = after (from_agent 2 ∷ []) in
    let m' = handle_inbound host noop "alice" (1 ∷ []) a.mux in
    let later = (run host noop (record a { mux = m' }) (from_agent 3 ∷ [])).mux in
    (m' ≡ over_core (push_outbox (1 ∷ [])) (told noop "alice" approval a.mux))
    × (handle_inbound host noop "bob" (1 ∷ []) later ≡ later)
first_writer_wins_example =
    first_writer_wins noop (noop-KeepsToCtx host) "alice" approval (1 ∷ [])
      (after (from_agent 2 ∷ [])) (from_agent 3 ∷ []) "bob" approval (1 ∷ []) approval_read
      asked_in_flight approval_read refl

reused_id_unanswerable_example :
    let a = after (from_agent 2 ∷ from_alice 1 ∷ []) in
    let m' = handle_agent_request host noop permission (2 ∷ []) a.mux in
    let later = (run host noop (record a { mux = m' }) (from_agent 3 ∷ [])).mux in
    (m'.core.pending_permissions ≡ a.mux.core.pending_permissions ++ (text "perm-1", 2 ∷ []) ∷ [])
    × (handle_inbound host noop "bob" (1 ∷ []) later ≡ later)
reused_id_unanswerable_example =
    reused_id_unanswerable noop (noop-KeepsToCtx host) permission (2 ∷ [])
      (after (from_agent 2 ∷ from_alice 1 ∷ [])) (from_agent 3 ∷ []) "bob" approval (1 ∷ []) refl
      asked-IsAnswered approval_read refl

-- Alice has sent a prompt, which is pending under the number 1, and the agent asks for a permission.
abbrev prompted : PendingRequest
prompted = pending_for "alice" (number (pos 10)) none

prompt_entered :
    Map.get 1 (after (from_alice 4 ∷ from_agent 2 ∷ [])).mux.core.pending ≡ some prompted
unfolding after
prompt_entered = refl

prompt_flies : (after (from_alice 4 ∷ from_agent 2 ∷ [])).mux.core.prompt_in_flight ≡ some 1
unfolding after
prompt_flies = refl

second_number : (after (from_alice 4 ∷ from_agent 2 ∷ [])).mux.core.next_mux_id ≡ 2
unfolding after
second_number = refl

room_left : (after (from_alice 4 ∷ from_agent 2 ∷ [])).mux.core.next_mux_id < u64_max
room_left = rw second_number (omega arith)

number_above : (after (from_alice 4 ∷ from_agent 2 ∷ [])).mux.core.next_mux_id ≤ 5
number_above = rw second_number (omega arith)

abbrev prompting : List Event
prompting = from_alice 4 ∷ from_agent 2 ∷ []

response_once_example :
    let a = after prompting in
    let m' = route_agent_response host noop first_response a.mux in
    let later = (run host noop (record a { mux = m' }) (from_alice 6 ∷ [])).mux in
    (Map.get 1 m'.core.pending ≡ none)
    × (route_agent_response host noop first_response later ≡ later)
unfolding after
response_once_example =
    response_once noop (noop-KeepsToCtx host) "mux" options tt alice prompting (from_alice 6 ∷ [])
      first_response first_response 1 prompted room_left prompt_entered refl refl

prompt_is_pending_example : is_some (Map.get 1 (after prompting).mux.core.pending) ≡ true
unfolding after
prompt_is_pending_example =
    prompt_is_pending noop (noop-KeepsToCtx host) "mux" options tt alice prompting 1 prompt_flies

next_number_is_free_example : Map.get 5 (after prompting).mux.core.pending ≡ none
unfolding after
next_number_is_free_example =
    next_number_is_free noop (noop-KeepsToCtx host) "mux" options tt alice prompting 5 room_left
      number_above

turn_end_settles_example :
    NoneInFlight
      (route_agent_response host noop first_response (after prompting).mux).core.agent_pending
turn_end_settles_example =
    turn_end_settles noop (noop-KeepsToCtx host) first_response 1 prompted (after prompting).mux
      refl prompt_entered prompt_flies

-- Alice has sent `initialize`, and the agent has answered it.
initialize_cached :
    is_some (after (from_alice 6 ∷ from_agent 5 ∷ [])).mux.core.initialize_cache ≡ true
unfolding after
initialize_cached = refl

initialize_from_cache_example :
    let a = after (from_alice 6 ∷ from_agent 5 ∷ []) in
    let later = (run host noop a (from_agent 3 ∷ [])).mux in
    (v : Value) × (later.core.initialize_cache ≡ some v)
    × (translate_outbound_request host noop "bob" initialize later
        ≡ over_core (send_result_response host "bob" (number (pos 8)) v) later)
initialize_from_cache_example =
    initialize_from_cache noop (noop-KeepsToCtx host) (after (from_alice 6 ∷ from_agent 5 ∷ []))
      (from_agent 3 ∷ []) "bob" initialize refl initialize_cached

-- Alice has sent `session/new`, and the agent has not answered it.
abbrev opening : PendingRequest
opening = pending_for "alice" (number (pos 9)) (some Core.session_new)

session_asked : Map.get 1 (after (from_alice 7 ∷ [])).mux.core.pending ≡ some opening
unfolding after
session_asked = refl

session_from_cache_example :
    let a = after (from_alice 7 ∷ []) in
    let opened = record a { mux = route_agent_response host noop first_response a.mux } in
    let later = (run host noop opened (from_agent 3 ∷ [])).mux in
    (v : Value) × (later.core.session_new_cache ≡ some v)
    × (translate_outbound_request host noop "bob" session_new later
        ≡ over_core (send_result_response host "bob" (number (pos 8)) v) later)
session_from_cache_example =
    session_from_cache noop (noop-KeepsToCtx host) (after (from_alice 7 ∷ [])) 1 first_response
      opening Core.session_new (from_agent 3 ∷ []) "bob" session_new refl session_asked refl
      (λ e. absurd (cc)) refl refl

ttl_ends_alone_example :
    (step host noop (after []) ttl_elapsed).status
    ≡ (if no_one (after []).mux.core.subscribers then ttl_expired else running)
unfolding after
ttl_ends_alone_example = ttl_ends_alone host noop (after []) refl
