-- ===== src/Extension/Untouched.antt =====
-- What no operation of `MuxCtx` changes: the agent's requests, the permissions, the caches, the
-- canonical session id and the policy.
use acp_mux.Base.{
  ℕ, ◌≡◌, refl, ◌∙◌, String, List, [], ◌∷◌, Option, none, some, is_some, Bool, if_case,
}
use acp_mux.Jsonrpc.{RequestId, Incoming, request, notification, response, ok, err}
use acp_mux.Json.{Value}
use acp_mux.Host.{Host, Bytes, parse}
use acp_mux.Core.{MuxCore, ReplayEntry, AgentReqState}
use acp_mux.Policy.{ClientToolPolicy}
use acp_mux.Core.Send.{record_frame, broadcast, send_to, submit_prompt, enqueue_prompt}
use acp_mux.Extension.Ctx.{
  CtxStep, broadcasts, sends, sends_agent, submits, tags, wakes, CtxSteps, stay, also,
  send_to_agent, push_frame,
}

-- The part of the core that the context only reads.
pub record Books : Type 0 where
  pub agent_pending : List (RequestId × AgentReqState)
  pub pending_permissions : List (RequestId × Bytes)
  pub initialize_cache : Option Value
  pub session_new_cache : Option Value
  pub canonical_session_id : Option String
  pub client_tool_policy : ClientToolPolicy

abbrev pub books : MuxCore → Books
books c = record {
  agent_pending = c.agent_pending;
  pending_permissions = c.pending_permissions;
  initialize_cache = c.initialize_cache;
  session_new_cache = c.session_new_cache;
  canonical_session_id = c.canonical_session_id;
  client_tool_policy = c.client_tool_policy;
}

abbrev pub Untouched : MuxCore → MuxCore → Type 0
Untouched c d = books d ≡ books c

record_frame-Untouched :
    (h : Host) (b : Bytes) (log : Option (List ReplayEntry)) (c : MuxCore)
    → Untouched c (record_frame h b log c)
unfolding record_frame
record_frame-Untouched h b none c = refl
record_frame-Untouched h b (some log) c = refl

broadcast-Untouched : (h : Host) (b : Bytes) (c : MuxCore) → Untouched c (broadcast h b c)
unfolding broadcast
broadcast-Untouched h b c = record_frame-Untouched h b c.replay_log c

enqueue-Untouched :
    (h : Host) (p : String) (d : Bool) (b : Bytes) (c : MuxCore)
    → Untouched c (enqueue_prompt h p d b c).0
unfolding enqueue_prompt
enqueue-Untouched h p d [] c = refl
enqueue-Untouched h p d (x ∷ b) c = refl

submit-Untouched :
    (h : Host) (p : String) (v : Value) (d : Bool) (c : MuxCore)
    → Untouched c (submit_prompt h p v d c).0
unfolding submit_prompt
submit-Untouched h p v d c =
    if_case (λ (r : MuxCore × Option ℕ). Untouched c r.0) (is_some c.prompt_in_flight) refl
      (enqueue-Untouched h p d _ c)

push-Untouched : (b : Bytes) (f : Incoming) (c : MuxCore) → Untouched c (push_frame b f c)
unfolding push_frame
push-Untouched b (request r) c = refl
push-Untouched b (notification n) c = refl
push-Untouched b (response r) c = refl

send_to_agent-Untouched : (h : Host) (b : Bytes) (c : MuxCore) → Untouched c (send_to_agent h b c)
unfolding send_to_agent
send_to_agent-Untouched h b c =
    elim (parse h b)
      as (λ r. Untouched c (elim r as (λ _. MuxCore) [ err e ↦ c | ok f ↦ push_frame b f c ])) [
        | err e ↦ refl
        | ok f ↦ push-Untouched b f c
      ]

step-Untouched : {h : Host} (c d : MuxCore) → CtxStep h c d → Untouched c d
unfolding send_to
step-Untouched {h} c d (broadcasts b e) = rw e (broadcast-Untouched h b c)
step-Untouched c d (sends p b e) = rw e (refl)
step-Untouched {h} c d (sends_agent b e) = rw e (send_to_agent-Untouched h b c)
step-Untouched {h} c d (submits p v b e) = rw e (submit-Untouched h p v b c)
step-Untouched c d (tags t e) = rw e (refl)
step-Untouched c d (wakes t p e) = rw e (refl)

pub CtxStep-Untouched : {h : Host} {c d : MuxCore} → CtxStep h c d → Untouched c d
CtxStep-Untouched {c = c} {d = d} s = step-Untouched c d s

-- However long an extension works through its context.
pub CtxSteps-Untouched : {h : Host} {c d : MuxCore} → CtxSteps h c d → Untouched c d
CtxSteps-Untouched stay = refl
CtxSteps-Untouched (also p s) = CtxStep-Untouched s ∙ CtxSteps-Untouched p
