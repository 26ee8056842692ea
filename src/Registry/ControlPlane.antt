-- ===== src/Registry/ControlPlane.antt =====
-- crates/acp-mux/src/mux/registry.rs: `list_sessions_control_plane`, which asks an agent started for
-- this one question.
use acp_mux.Base.{
  ℕ, zero, suc, ◌+◌, ◌-◌, ◌<◌, ◌≡◌, refl, ap, sym, subst, ◌∙◌, String, List, [], ◌∷◌, ◌++◌, Option,
  none, some, if◌then◌else◌, ltb, true, false, Bool-cases, ◌≢◌, ℤ, pos, ◌==◌, map_some, unwrap_or,
  arith, ◌⊎◌, inl, inr, eq_nat,
}
use acp_mux.Json.{Value, num, str, obj, field, end, i64_number, insert_key, pos_int}
use acp_mux.Jsonrpc.{
  Incoming, request, notification, response, IncomingResponse, JsonRpcError, ParseError, Result, ok,
  err, number, eq_id,
}
use acp_mux.Host.{Host, Bytes, parse}
use acp_mux.Registry.{AgentCmd}

pub data ControlPlaneSessionListError : Type 0 where
  agent_cmd_missing agent_process json : ControlPlaneSessionListError
  protocol : ParseError → ControlPlaneSessionListError
  agent_json_rpc : ℤ → String → Option Value → ControlPlaneSessionListError
  agent_timeout agent_eof : String → ControlPlaneSessionListError

abbrev pub Reply : Type 0
Reply = Result ControlPlaneSessionListError Value

-- A read of the agent's stdout under the time limit.
pub data Received : Type 0 where
  line : Bytes → Received
  timed_out closed : Received

-- The agent: what its reads will give, how many were made, how many more frames its stdin takes, and
-- the frames that it took.
pub record AgentProcess : Type 0 where
  pub reads : ℕ → Received
  pub read : ℕ
  pub writable : ℕ
  pub taken : List Bytes

unfoldable pub send : Bytes → AgentProcess → Option AgentProcess
send b a =
    if ltb 0 a.writable
    then some (record a { writable = a.writable - 1; taken = a.taken ++ b ∷ [] })
    else none

-- `From<JsonRpcError>`, and a missing result as null.
abbrev pub reply_of : IncomingResponse → Reply
reply_of r = elim r.error [
  | some e ↦ err (agent_json_rpc e.code e.message e.payload)
  | none ↦ ok (unwrap_or r.result Value.null)
]

abbrev pub if_answers : ℤ → Incoming → Option Reply
if_answers id (response r) = if r.id == number id then some (reply_of r) else none
if_answers id _ = none

module _ (h : Host) (id : ℤ) (method : String) where
  -- One round of the loop: `none` goes on to the next line.
  unfoldable pub decide : Received → Option Reply
  decide timed_out = some (err (agent_timeout method))
  decide closed = some (err (agent_eof method))
  decide (line b) = elim (parse h b) [
    | err e ↦ some (err (protocol e))
    | ok frame ↦ if_answers id frame
  ]

  unfoldable pub await_reply : ℕ → AgentProcess → AgentProcess × Reply
  await_reply zero a = (a, err (agent_timeout method))
  await_reply (suc rounds) a =
      let a' = record a { read = a.read + 1 } in
      let rest = await_reply rounds a' in
      elim (decide (a.reads a.read)) [ none ↦ rest | some r ↦ (a', r) ]

  unfoldable pub request_value : Option Value → Value
  request_value params =
      let fs =
        field "jsonrpc" (str "2.0")
          (field "id" (num (i64_number id)) (field "method" (str method) end)) in
      elim params [ none ↦ obj fs | some p ↦ obj (insert_key "params" p fs) ]

  unfoldable pub request_transient_agent : Option Value → AgentProcess → AgentProcess × Reply
  request_transient_agent params a = elim (h.to_vec (request_value params)) [
    | none ↦ (a, err json)
    | some bytes ↦ elim (send bytes a) [
      | none ↦ (a, err agent_process)
      | some a' ↦ await_reply 128 a'
    ]
  ]

module _ (h : Host) where
  abbrev pub initialize_params : Value
  initialize_params = obj (field "protocolVersion" (num (pos_int 1)) end)

  unfoldable pub query_transient_session_list : Option String → AgentProcess → AgentProcess × Reply
  query_transient_session_list cwd a =
      let (a', initialized) =
        request_transient_agent h (pos 1) "initialize" (some initialize_params) a in
      elim initialized [
        | err e ↦ (a', err e)
        | ok v ↦
            request_transient_agent h (pos 2) "session/list"
              (map_some (λ dir. obj (field "cwd" (str dir) end)) cwd) a'
      ]

  -- `spawned` is the agent's process, if it starts; a failed shutdown is only logged.
  unfoldable pub list_sessions_control_plane :
      Option AgentCmd → Option AgentProcess → Option String → Reply
  list_sessions_control_plane none spawned cwd = err agent_cmd_missing
  list_sessions_control_plane (some cmd) none cwd = err agent_process
  list_sessions_control_plane (some cmd) (some agent) cwd =
      (query_transient_session_list cwd agent).1

module _ (h : Host) (id : ℤ) (method : String) where
  -- A read that ends a request with this reply: a response with the request's id, a line that is no
  -- frame, the end of the output or a timeout.
  pub data Ends : Received → Reply → Type 0 where
    fails :
        {b : Bytes} {r : IncomingResponse} {e : JsonRpcError}
        → parse h b ≡ ok (response r)
        → r.id ≡ number id
        → r.error ≡ some e
        → Ends (line b) (err (agent_json_rpc e.code e.message e.payload))
    succeeds :
        {b : Bytes} {r : IncomingResponse}
        → parse h b ≡ ok (response r)
        → r.id ≡ number id
        → r.error ≡ none
        → Ends (line b) (ok (unwrap_or r.result Value.null))
    breaks : {b : Bytes} {e : ParseError} → parse h b ≡ err e → Ends (line b) (err (protocol e))
    times_out : Ends timed_out (err (agent_timeout method))
    hangs_up : Ends closed (err (agent_eof method))

  -- A line with a frame that is no response to the request.
  pub data Passes : Received → Type 0 where
    passes :
        {b : Bytes} {frame : Incoming}
        → parse h b ≡ ok frame
        → ((r : IncomingResponse) → frame ≡ response r → r.id ≢ number id)
        → Passes (line b)

  abbrev Says : Received → Option Reply → Type 0
  Says got none = Passes got
  Says got (some reply) = Ends got reply

  same_id : (r : IncomingResponse) → (r.id == number id) ≡ true → r.id ≡ number id
  same_id r = (eq_id.alike_iff r.id (number id)).0

  response-Says :
      (b : Bytes) (r : IncomingResponse)
      → parse h b ≡ ok (response r)
      → Says (line b) (if_answers id (response r))
  response-Says b r is = elim (Bool-cases (r.id == number id)) [
    | inl hit ↦ rw hit (replied hit r.error refl)
    | inr miss ↦ rw miss (passes is (another miss))
  ]
    where
      replied :
          (r.id == number id) ≡ true
          → (o : Option JsonRpcError) → r.error ≡ o
          → Ends (line b) (reply_of r)
      replied hit (some e) is_error =
          subst (Ends (line b)) (rw is_error refl) (fails is (same_id r hit) is_error)
      replied hit none is_error =
          subst (Ends (line b)) (rw is_error refl) (succeeds is (same_id r hit) is_error)

      another :
          (r.id == number id) ≡ false
          → (s : IncomingResponse) → response r ≡ response s
          → s.id ≢ number id
      another miss s e same = absurd (
          let same_r : r.id ≡ number id = cc in
          let hit = (eq_id.alike_iff r.id (number id)).1 same_r in cc)

  decide-Says : (got : Received) → Says got (decide h id method got)
  unfolding decide
  decide-Says timed_out = times_out
  decide-Says closed = hangs_up
  decide-Says (line b) = by_parse (parse h b) refl
    where
      by_parse :
          (o : Result ParseError Incoming)
          → parse h b ≡ o
          → Says
              (line b)
              (elim o [ err e ↦ some (err (protocol e)) | ok frame ↦ if_answers id frame ])
      by_parse (err e) is = breaks is
      by_parse (ok (request r)) is = passes is λ s e. absurd (cc)
      by_parse (ok (notification n)) is = passes is λ s e. absurd (cc)
      by_parse (ok (response r)) is = response-Says b r is

  -- The first of the next `n` reads that ends the request is the last one made, those before it pass, and
  -- the reply is what it says; or all of the `n` pass.
  abbrev pub EndsAt : ℕ → AgentProcess → AgentProcess × Reply → Type 0
  EndsAt n a r =
      ((k : ℕ) × (k < n)
        × ((j : ℕ) → j < k → Passes (a.reads (a.read + j)))
        × Ends (a.reads (a.read + k)) r.1
        × (r.0 ≡ record a { read = a.read + k + 1 }))
      ⊎ (((j : ℕ) → j < n → Passes (a.reads (a.read + j)))
          × (r.1 ≡ err (agent_timeout method))
          × (r.0 ≡ record a { read = a.read + n }))

  await_reply-EndsAt : (n : ℕ) (a : AgentProcess) → EndsAt n a (await_reply h id method n a)
  unfolding await_reply
  await_reply-EndsAt zero a =
      inr ((λ j l. absurd (omega arith)), refl, ap (λ n. record a { read = n }) (omega arith))
  await_reply-EndsAt (suc n) a =
      by_first (decide h id method (a.reads a.read)) (decide-Says (a.reads a.read))
        (await_reply-EndsAt n _)
    where
      passed_at : {i j : ℕ} → i ≡ j → Passes (a.reads i) → Passes (a.reads j)
      passed_at e = subst (λ i. Passes (a.reads i)) e

      -- A read that passes, put before those that follow.
      shift :
          Passes (a.reads a.read)
          → (m : ℕ) → ((j : ℕ) → j < m → Passes (a.reads (a.read + 1 + j)))
          → (j : ℕ) → j < suc m
          → Passes (a.reads (a.read + j))
      shift first m later zero l = passed_at (omega arith) first
      shift first m later (suc j) l = passed_at (omega arith) (later j (omega arith))

      by_first :
          (o : Option Reply)
          → Says (a.reads a.read) o
          → EndsAt n
              (record a { read = a.read + 1 })
              (await_reply h id method n (record a { read = a.read + 1 }))
          → EndsAt (suc n) a (elim o [
            | none ↦ await_reply h id method n (record a { read = a.read + 1 })
            | some r ↦ (record a { read = a.read + 1 }, r)
          ])
      by_first none first (inl (k, l, before, hit, left)) = inl (
        suc k,
        omega arith,
        shift first k before,
        subst (λ i. Ends (a.reads i) (await_reply h id method n (record a { read = a.read + 1 })).1)
            (let e : a.read + 1 + k ≡ a.read + suc k = omega arith in e) hit,
        left ∙ ap (λ m. record a { read = m }) (omega arith),
      )
      by_first none first (inr (silent, out, left)) =
          inr (shift first n silent, out, left ∙ ap (λ m. record a { read = m }) (omega arith))
      by_first (some r) first later = inl (
        0,
        omega arith,
        (λ j l. absurd (omega arith)),
        subst (λ i. Ends (a.reads i) r) (let e : a.read ≡ a.read + 0 = omega arith in e) first,
        ap (λ m. record a { read = m }) (omega arith),
      )

  -- A request that the agent's stdin takes ends after at most 128 reads: at the first read that is a
  -- response with its id, a line that is no frame, the end of the output or a timeout, with what that
  -- read says; and with a timeout if 128 lines are frames that are no response to it.
  pub request-EndsAt :
      (params : Option Value) (a sent : AgentProcess) (bytes : Bytes)
      → h.to_vec (request_value h id method params) ≡ some bytes
      → send bytes a ≡ some sent
      → EndsAt 128 sent (request_transient_agent h id method params a)
  unfolding request_transient_agent
  request-EndsAt params a sent bytes printed took =
      subst
        (λ o. EndsAt 128 sent (elim o [
          | none ↦ (a, err json)
          | some b ↦ elim (send b a) [
            | none ↦ (a, err agent_process)
            | some a' ↦ await_reply h id method 128 a'
          ]
        ]))
        (sym printed)
        (subst
          (λ o.
            EndsAt 128 sent
              (elim o [ none ↦ (a, err agent_process) | some a' ↦ await_reply h id method 128 a' ]))
          (sym took) (await_reply-EndsAt 128 sent))
