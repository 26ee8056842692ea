-- ===== src/Extension/Ctx.antt =====
-- crates/acp-mux/src/extension.rs: `MuxCtx`, the operations on the core that a hook is given, and the
-- relation of the cores that a sequence of them connects.
use acp_mux.Base.{ℕ, ◌≡◌, String, Bool, [], ◌∷◌, ◌++◌, unwrap_or}
use acp_mux.Json.{Value}
use acp_mux.Jsonrpc.{Incoming, request, notification, response, ok, err}
use acp_mux.Host.{Host, Bytes, parse}
use acp_mux.Core.{MuxCore}
use acp_mux.Core.Send.{broadcast, send_to, submit_prompt}

-- An extension sends the agent requests and notifications, never responses.
unfoldable pub push_frame : Bytes → Incoming → MuxCore → MuxCore
push_frame bytes (request r) c = record c { agent_outbox = c.agent_outbox ++ bytes ∷ [] }
push_frame bytes (notification n) c = record c { agent_outbox = c.agent_outbox ++ bytes ∷ [] }
push_frame bytes (response r) c = c

abbrev pub set_replay_tag : ℕ → MuxCore → MuxCore
set_replay_tag tag c = record c { replay_tag = tag }

abbrev pub schedule_wake : ℕ → Bytes → MuxCore → MuxCore
schedule_wake delay payload c = record c { wakes = c.wakes ++ (delay, payload) ∷ [] }

module _ (h : Host) where
  unfoldable pub send_to_agent : Bytes → MuxCore → MuxCore
  send_to_agent bytes c = elim (parse h bytes) [ err e ↦ c | ok f ↦ push_frame bytes f c ]

  -- 0 stands for a prompt that was not submitted.
  unfoldable pub ctx_submit_prompt : String → Value → Bool → MuxCore → MuxCore × ℕ
  ctx_submit_prompt peer params deliver c =
      let r = submit_prompt h peer params deliver c in (r.0, unwrap_or r.1 0)

-- One operation.
pub data CtxStep (h : Host) (c d : MuxCore) : Type 0 where
  broadcasts : (bytes : Bytes) → d ≡ broadcast h bytes c → CtxStep h c d
  sends : (peer : String) (bytes : Bytes) → d ≡ send_to peer bytes c → CtxStep h c d
  sends_agent : (bytes : Bytes) → d ≡ send_to_agent h bytes c → CtxStep h c d
  submits :
      (peer : String) (params : Value) (deliver : Bool)
      → d ≡ (submit_prompt h peer params deliver c).0
      → CtxStep h c d
  tags : (tag : ℕ) → d ≡ set_replay_tag tag c → CtxStep h c d
  wakes : (delay : ℕ) (payload : Bytes) → d ≡ schedule_wake delay payload c → CtxStep h c d

-- Any number of them.
pub data CtxSteps (h : Host) (c : MuxCore) : MuxCore → Type 0 where
  stay : CtxSteps h c c
  also : {d e : MuxCore} → CtxSteps h c d → CtxStep h d e → CtxSteps h c e

-- What every operation keeps, an extension keeps.
pub keep_steps {ℓ} :
    {h : Host} (P : MuxCore → Type ℓ)
    → ((c d : MuxCore) → CtxStep h c d → P c → P d)
    → {c d : MuxCore} → CtxSteps h c d
    → P c
    → P d
keep_steps P keep stay p = p
keep_steps P keep (also {d = d} {e = e} steps s) p = keep d e s (keep_steps P keep steps p)
