-- ===== src/Mux/Steps/OfPending.antt =====
-- Which steps of the core change the pending requests, their numbering and the prompt in flight.
use acp_mux.Base.{
  ℕ, ◌≤◌, ◌<◌, ◌≡◌, String, Bool, true, false, List, [], ◌∷◌, Option, none, some, is_some, ◌==◌,
  eq_text, eq_nat, inl, inr, Bool-cases, if_case, if◌then◌else◌, saturating_suc, u64_max, arith,
}
use acp_mux.Base.Map
use acp_mux.Json.{Value}
use acp_mux.Jsonrpc.{RequestId, eq_id, Incoming, request, notification, response, ok, err}
use acp_mux.Host.{Host, Bytes, parse}
use acp_mux.Core.{MuxCore, PendingRequest, ReplayEntry}
use acp_mux.Core.Send.{
  close_all_subscribers, fanout, record_frame, broadcast, send_to, submit_prompt, enqueue_prompt,
}
use acp_mux.Extension.Ctx.{
  CtxStep, CtxSteps, broadcasts, sends, sends_agent, submits, tags, wakes, keep_steps, push_frame,
  send_to_agent,
}
use acp_mux.Mux.Session.{consume}
use acp_mux.Mux.Inbound.{enter_request}
use acp_mux.Mux.Agent.{open_request, note_permission, is_prompt_id}
use acp_mux.Mux.Steps.{
  CoreStep, extends, joins, leaves, pushes, consumes, asks, fans, switches, caches_initialize,
  caches_session, numbers, forwards, shuts, drains, closes, close_request, take_number,
}

abbrev pub Pending : Type 0
Pending = List (ℕ × PendingRequest)

-- A number that was taken stays below the next one, until the numbers are used up.
abbrev pub Above : ℕ → ℕ → Type 0
Above k n = (k < u64_max → k < n) × (u64_max ≤ k → u64_max ≤ n)

-- A property of the next number, the pending requests and the prompt in flight, kept by each of the
-- five changes of them.
pub record Keeps {ℓ} (Q : ℕ → Pending → Option ℕ → Type ℓ) : Type ℓ where
  pub number : (n : ℕ) (p : Pending) (f : Option ℕ) → Q n p f → Q (saturating_suc n) p f
  pub submit :
      (n : ℕ) (p : Pending) (e : PendingRequest)
      → Q n p none
      → Q (saturating_suc n) (Map.insert n e p) (some n)
  pub enter :
      (k : ℕ) (p₀ : Pending) (f₀ : Option ℕ) (n : ℕ) (p : Pending) (f : Option ℕ)
      (e : PendingRequest)
      → Q k p₀ f₀
      → Above k n
      → Q n p f
      → (is_prompt : Bool) → Q n (Map.insert k e p) (if is_prompt then some k else f)
  pub finish : (n : ℕ) (p : Pending) (k : ℕ) → Q n p (some k) → Q n (Map.remove k p) none
  pub answer :
      (n : ℕ) (p : Pending) (f : Option ℕ) (k : ℕ)
      → is_prompt_id f k ≡ false
      → Q n p f
      → Q n (Map.remove k p) f

abbrev pub Of {ℓ} : (ℕ → Pending → Option ℕ → Type ℓ) → MuxCore → Type ℓ
Of Q c = Q c.next_mux_id c.pending c.prompt_in_flight

module _ {ℓ} (Q : ℕ → Pending → Option ℕ → Type ℓ) (keeps : Keeps Q) where
  record_frame-keeps :
      (h : Host) (b : Bytes) (log : Option (List ReplayEntry)) (c : MuxCore)
      → Of Q c
      → Of Q (record_frame h b log c)
  unfolding record_frame
  record_frame-keeps h b none c q = q
  record_frame-keeps h b (some log) c q = q

  enqueue-keeps :
      (h : Host) (p : String) (d : Bool) (b : Bytes) (c : MuxCore)
      → Q c.next_mux_id c.pending none
      → Of Q c
      → Of Q (enqueue_prompt h p d b c).0
  unfolding enqueue_prompt
  enqueue-keeps h p d [] c idle q = keeps.number _ _ _ q
  enqueue-keeps h p d (x ∷ b) c idle q = keeps.submit _ _ _ idle

  idle_of : (f : Option ℕ) (n : ℕ) (p : Pending) → is_some f ≡ false → Q n p f → Q n p none
  idle_of none n p e q = q
  idle_of (some k) n p e q = cc

  submit-keeps :
      (h : Host) (p : String) (v : Value) (d : Bool) (c : MuxCore)
      → Of Q c
      → Of Q (submit_prompt h p v d c).0
  unfolding submit_prompt
  submit-keeps h p v d c q = elim (Bool-cases (is_some c.prompt_in_flight)) [
    | inl e ↦ rw (e, submit_prompt) q
    | inr e ↦
        rw (e, submit_prompt)
          (enqueue-keeps h p d _ c (idle_of c.prompt_in_flight c.next_mux_id c.pending e q) q)
  ]

  push-keeps : (b : Bytes) (f : Incoming) (c : MuxCore) → Of Q c → Of Q (push_frame b f c)
  unfolding push_frame
  push-keeps b (request r) c q = q
  push-keeps b (notification n) c q = q
  push-keeps b (response r) c q = q

  send_to_agent-keeps : (h : Host) (b : Bytes) (c : MuxCore) → Of Q c → Of Q (send_to_agent h b c)
  unfolding send_to_agent
  send_to_agent-keeps h b c q =
      elim (parse h b)
        as (λ r. Of Q (elim r as (λ _. MuxCore) [ err e ↦ c | ok f ↦ push_frame b f c ])) [
          | err e ↦ q
          | ok f ↦ push-keeps b f c q
        ]

  pub keep_pending_ctx : {h : Host} (c d : MuxCore) → CtxStep h c d → Of Q c → Of Q d
  unfolding send_to broadcast
  keep_pending_ctx {h} c d (broadcasts b e) q = rw e (record_frame-keeps h b c.replay_log c q)
  keep_pending_ctx c d (sends p b e) q = rw e q
  keep_pending_ctx {h} c d (sends_agent b e) q = rw e (send_to_agent-keeps h b c q)
  keep_pending_ctx {h} c d (submits p v b e) q = rw e (submit-keeps h p v b c q)
  keep_pending_ctx c d (tags t e) q = rw e q
  keep_pending_ctx c d (wakes t p e) q = rw e q

Above-Keeps : (k : ℕ) → Keeps (λ n p f. Above k n)
Above-Keeps k = record {
  number = λ n p f a. ground arith;
  submit = λ n p e a. ground arith;
  enter = λ j p₀ f₀ n p f e _ _ a is_prompt. a;
  finish = λ n p j a. a;
  answer = λ n p f j _ a. a;
}

module _ {ℓ} (Q : ℕ → Pending → Option ℕ → Type ℓ) (keeps : Keeps Q) where
  asks-keeps :
      (method : String) (id : RequestId) (line : Bytes) (c : MuxCore)
      → Of Q c
      → Of Q (note_permission method id line (open_request id c))
  unfolding note_permission open_request
  asks-keeps method id line c q =
      let opened : Of Q (open_request id c) =
        if_case (Of Q) (is_some (Map.get id c.agent_pending)) q q in
      if_case (Of Q) (method == "session/request_permission") opened opened

  prompt-id : (f : Option ℕ) (k : ℕ) → is_prompt_id f k ≡ true → f ≡ some k
  prompt-id none k e = cc
  prompt-id (some j) k e = ground arith

  close-keeps : (k : ℕ) (c : MuxCore) → Of Q c → Of Q (close_request k c)
  close-keeps k c q = elim (Bool-cases (is_prompt_id c.prompt_in_flight k)) [
    | inl e ↦
        rw e (keeps.finish c.next_mux_id c.pending k (rw (prompt-id c.prompt_in_flight k e) at q))
    | inr e ↦ rw e (keeps.answer c.next_mux_id c.pending c.prompt_in_flight k e q)
  ]

  forward-keeps :
      {h : Host} (c b : MuxCore) (entry : PendingRequest) (is_prompt : Bool)
      → CtxSteps h (take_number c) b
      → Of Q c
      → Q b.next_mux_id
          (Map.insert c.next_mux_id entry b.pending)
          (if is_prompt then some c.next_mux_id else b.prompt_in_flight)
  forward-keeps {h} c b entry is_prompt steps q =
      keeps.enter c.next_mux_id c.pending c.prompt_in_flight b.next_mux_id b.pending
        b.prompt_in_flight entry q
        (keep_steps (λ (d : MuxCore). Above c.next_mux_id d.next_mux_id)
          (keep_pending_ctx (λ n p f. Above c.next_mux_id n) (Above-Keeps c.next_mux_id)) steps
          (ground arith))
        (keep_steps (Of Q) (keep_pending_ctx Q keeps) steps
          (keeps.number c.next_mux_id c.pending c.prompt_in_flight q))
        is_prompt

  pub keep_pending : {h : Host} (c d : MuxCore) → CoreStep h c d → Of Q c → Of Q d
  unfolding fanout close_all_subscribers enter_request consume
  keep_pending c d (extends s) q = keep_pending_ctx Q keeps c d s q
  keep_pending c d (joins s e) q = rw e q
  keep_pending c d (leaves p e) q = rw e q
  keep_pending c d (pushes b e) q = rw e q
  keep_pending c d (consumes j e) q = rw e q
  keep_pending c d (asks method j line e) q = rw e (asks-keeps method j line c q)
  keep_pending c d (fans l e) q = rw e q
  keep_pending c d (switches s e) q = rw e q
  keep_pending c d (caches_initialize v e) q = rw e q
  keep_pending c d (caches_session v e) q = rw e q
  keep_pending c d (numbers e) q = rw e (keeps.number c.next_mux_id c.pending c.prompt_in_flight q)
  keep_pending {h} c d (forwards {b} entry is_prompt bytes steps e) q =
      rw e (forward-keeps c b entry is_prompt steps q)
  keep_pending c d (shuts code reason e) q = rw e q
  keep_pending c d (drains e) q = rw e q
  keep_pending c d (closes k e) q = rw e (close-keeps k c q)
