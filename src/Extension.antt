-- ===== src/Extension.antt =====
-- crates/acp-mux/src/extension.rs: the hooks of an extension, and what they may do to the core.
pub mod Ctx
pub mod Untouched
use acp_mux.Base.{ℕ, String, Bool, Option, none, some, ℤ}
use acp_mux.Json.{Value}
use acp_mux.Jsonrpc.{RequestId, IncomingRequest, IncomingNotification, IncomingResponse}
use acp_mux.Host.{Host, Bytes}
use acp_mux.Attach.{AttachParams, AttachResult}
use acp_mux.Core.{Subscriber, ReplayEntry, MuxCore}
use Ctx.{CtxSteps, stay}

pub data Disposition : Type 0 where
  forward handled : Disposition
  reject : ℤ → String → Disposition

pub data NotifyDisposition : Type 0 where
  passthrough handled : NotifyDisposition

pub data ResolvedBy : Type 0 where
  peer : String → ResolvedBy
  agent_cancelled turn_ended : ResolvedBy

-- The actor's state: the core and the state of its extension.
pub record Mux (E : Type 0) : Type 0 where
  pub core : MuxCore
  pub ext : E

-- A hook takes the whole state; what it is handed as `&mut` it returns.
pub record MuxExtension (E : Type 0) : Type 0 where
  pub on_subscriber_request :
      Mux E → String → IncomingRequest → Mux E × IncomingRequest × Disposition
  pub on_request_translating : Mux E → String → ℕ → IncomingRequest → Mux E × IncomingRequest
  pub on_request_forwarded : Mux E → String → ℕ → IncomingRequest → Mux E
  pub on_subscriber_notification : Mux E → String → IncomingNotification → Mux E × NotifyDisposition
  pub on_agent_notification : Mux E → IncomingNotification → Mux E
  pub on_agent_request : Mux E → RequestId → IncomingRequest → Mux E
  pub on_agent_response : Mux E → ℕ → IncomingResponse → Mux E × IncomingResponse
  pub on_prompt_settled : Mux E → ℕ → IncomingResponse → Mux E
  pub on_agent_request_resolved : Mux E → RequestId → ResolvedBy → Option IncomingResponse → Mux E
  pub on_canonical_session_id : Mux E → Option String → String → Bool → Mux E
  pub on_subscriber_attaching : Mux E → Subscriber → Mux E
  pub on_subscriber_attached : Mux E → String → Mux E
  pub on_subscriber_detached : Mux E → String → Mux E
  pub on_attach : Mux E → String → AttachParams → AttachResult → Mux E × AttachResult
  pub replay_frame : Mux E → ReplayEntry → Mux E × Option Bytes
  pub on_wake : Mux E → Bytes → Mux E

-- The core is private to its crate: a hook changes it by the operations of `MuxCtx` alone.
pub record KeepsToCtx (h : Host) {E : Type 0} (x : MuxExtension E) : Type 0 where
  pub subscriber_request :
      (m : Mux E) (p : String) (r : IncomingRequest)
      → CtxSteps h m.core (x.on_subscriber_request m p r).0.core
  pub request_translating :
      (m : Mux E) (p : String) (n : ℕ) (r : IncomingRequest)
      → CtxSteps h m.core (x.on_request_translating m p n r).0.core
  pub request_forwarded :
      (m : Mux E) (p : String) (n : ℕ) (r : IncomingRequest)
      → CtxSteps h m.core (x.on_request_forwarded m p n r).core
  pub subscriber_notification :
      (m : Mux E) (p : String) (n : IncomingNotification)
      → CtxSteps h m.core (x.on_subscriber_notification m p n).0.core
  pub agent_notification :
      (m : Mux E) (n : IncomingNotification) → CtxSteps h m.core (x.on_agent_notification m n).core
  pub agent_request :
      (m : Mux E) (i : RequestId) (r : IncomingRequest)
      → CtxSteps h m.core (x.on_agent_request m i r).core
  pub agent_response :
      (m : Mux E) (n : ℕ) (r : IncomingResponse)
      → CtxSteps h m.core (x.on_agent_response m n r).0.core
  pub prompt_settled :
      (m : Mux E) (n : ℕ) (r : IncomingResponse)
      → CtxSteps h m.core (x.on_prompt_settled m n r).core
  pub agent_request_resolved :
      (m : Mux E) (i : RequestId) (b : ResolvedBy) (r : Option IncomingResponse)
      → CtxSteps h m.core (x.on_agent_request_resolved m i b r).core
  pub canonical_session_id :
      (m : Mux E) (old : Option String) (s : String) (via_load : Bool)
      → CtxSteps h m.core (x.on_canonical_session_id m old s via_load).core
  pub subscriber_attaching :
      (m : Mux E) (s : Subscriber) → CtxSteps h m.core (x.on_subscriber_attaching m s).core
  pub subscriber_attached :
      (m : Mux E) (p : String) → CtxSteps h m.core (x.on_subscriber_attached m p).core
  pub subscriber_detached :
      (m : Mux E) (p : String) → CtxSteps h m.core (x.on_subscriber_detached m p).core
  pub attach :
      (m : Mux E) (p : String) (a : AttachParams) (r : AttachResult)
      → CtxSteps h m.core (x.on_attach m p a r).0.core
  pub replay : (m : Mux E) (e : ReplayEntry) → CtxSteps h m.core (x.replay_frame m e).0.core
  pub wake : (m : Mux E) (b : Bytes) → CtxSteps h m.core (x.on_wake m b).core

-- `NoopExtension`: the default body of every hook.
abbrev pub noop : MuxExtension (Unit {0})
noop = record {
  on_subscriber_request = λ m p r. (m, r, forward);
  on_request_translating = λ m p n r. (m, r);
  on_request_forwarded = λ m p n r. m;
  on_subscriber_notification = λ m p n. (m, passthrough);
  on_agent_notification = λ m n. m;
  on_agent_request = λ m i r. m;
  on_agent_response = λ m n r. (m, r);
  on_prompt_settled = λ m n r. m;
  on_agent_request_resolved = λ m i b r. m;
  on_canonical_session_id = λ m old s via_load. m;
  on_subscriber_attaching = λ m s. m;
  on_subscriber_attached = λ m p. m;
  on_subscriber_detached = λ m p. m;
  on_attach = λ m p a r. (m, r);
  replay_frame = λ m e. (m, some e.frame);
  on_wake = λ m b. m;
}

pub noop-KeepsToCtx : (h : Host) → KeepsToCtx h noop
noop-KeepsToCtx h = record {
  subscriber_request = λ m p r. stay;
  request_translating = λ m p n r. stay;
  request_forwarded = λ m p n r. stay;
  subscriber_notification = λ m p n. stay;
  agent_notification = λ m n. stay;
  agent_request = λ m i r. stay;
  agent_response = λ m n r. stay;
  prompt_settled = λ m n r. stay;
  agent_request_resolved = λ m i b r. stay;
  canonical_session_id = λ m old s via_load. stay;
  subscriber_attaching = λ m s. stay;
  subscriber_attached = λ m p. stay;
  subscriber_detached = λ m p. stay;
  attach = λ m p a r. stay;
  replay = λ m e. stay;
  wake = λ m b. stay;
}

abbrev pub over_core : {E : Type 0} → (MuxCore → MuxCore) → Mux E → Mux E
over_core f m = record m { core = f m.core }
