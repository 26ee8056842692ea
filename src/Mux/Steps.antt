-- ===== src/Mux/Steps.antt =====
-- The mux as a transition system: every change that a handler makes to the core, for any extension
-- that keeps to `MuxCtx`. The children show that the handlers make no other change.
pub mod Frames
pub mod FromSubscriber
pub mod FromAgent
pub mod OfRun
pub mod OfParts
pub mod OfPending
pub mod OfSession
pub mod OfLog
use acp_mux.Base.{
  ℕ, ◌≡◌, refl, String, Bool, true, false, List, [], Option, none, some, if◌then◌else◌,
  saturating_suc, eq_nat, eq_text,
}
use acp_mux.Base.Map
use acp_mux.Json.{Value}
use acp_mux.Jsonrpc.{RequestId}
use acp_mux.Host.{Host, Bytes}
use acp_mux.Core.{Subscriber, PendingRequest, MuxCore}
use acp_mux.Core.Send.{close_all_subscribers, fanout, send_to, broadcast}
use acp_mux.Extension.Ctx.{CtxStep, CtxSteps, stay, also, sends, broadcasts}
use acp_mux.Mux.Attach.{insert_subscriber}
use acp_mux.Mux.Session.{consume}
use acp_mux.Mux.Inbound.{push_outbox, enter_request}
use acp_mux.Mux.Agent.{open_request, note_permission, is_prompt_id}

abbrev pub take_number : MuxCore → MuxCore
take_number c = record c { next_mux_id = saturating_suc c.next_mux_id }

-- The answered request leaves the books, and its turn ends if it is the prompt in flight.
abbrev pub remove_pending : ℕ → MuxCore → MuxCore
remove_pending k c = record c { pending = Map.remove k c.pending }

abbrev pub end_turn : MuxCore → MuxCore
end_turn c = record c { prompt_in_flight = none }

abbrev pub close_request : ℕ → MuxCore → MuxCore
close_request k c =
    if is_prompt_id c.prompt_in_flight k then end_turn (remove_pending k c) else remove_pending k c

pub data CoreStep (h : Host) (c d : MuxCore) : Type 0 where
  extends : CtxStep h c d → CoreStep h c d
  joins : (s : Subscriber) → d ≡ insert_subscriber s c → CoreStep h c d
  leaves :
      (peer : String)
      → d ≡ record c { subscribers = Map.remove peer c.subscribers }
      → CoreStep h c d
  pushes : (bytes : Bytes) → d ≡ push_outbox bytes c → CoreStep h c d
  consumes : (id : RequestId) → d ≡ consume id c → CoreStep h c d
  asks :
      (method : String) (id : RequestId) (line : Bytes)
      → d ≡ note_permission method id line (open_request id c)
      → CoreStep h c d
  fans : (line : Bytes) → d ≡ fanout line c → CoreStep h c d
  switches : (s : String) → d ≡ record c { canonical_session_id = some s } → CoreStep h c d
  caches_initialize : (v : Value) → d ≡ record c { initialize_cache = some v } → CoreStep h c d
  caches_session : (v : Value) → d ≡ record c { session_new_cache = some v } → CoreStep h c d
  numbers : d ≡ take_number c → CoreStep h c d
  -- A request takes its number, the extension may act, and the request is entered.
  forwards :
      {b : MuxCore} (entry : PendingRequest) (is_prompt : Bool) (bytes : Bytes)
      → CtxSteps h (take_number c) b
      → d ≡ enter_request c.next_mux_id entry is_prompt bytes b
      → CoreStep h c d
  shuts : (code : ℕ) (reason : String) → d ≡ close_all_subscribers code reason c → CoreStep h c d
  drains : d ≡ record c { agent_outbox = [] } → CoreStep h c d
  closes : (k : ℕ) → d ≡ close_request k c → CoreStep h c d

pub data CoreSteps (h : Host) (c : MuxCore) : MuxCore → Type 0 where
  here : CoreSteps h c c
  next : {d e : MuxCore} → CoreSteps h c d → CoreStep h d e → CoreSteps h c e

pub trans : {h : Host} {a b c : MuxCore} → CoreSteps h a b → CoreSteps h b c → CoreSteps h a c
trans p here = p
trans p (next q s) = next (trans p q) s

pub one : {h : Host} {c d : MuxCore} → CoreStep h c d → CoreSteps h c d
one s = next here s

pub of_ctx : {h : Host} {c d : MuxCore} → CtxSteps h c d → CoreSteps h c d
of_ctx stay = here
of_ctx (also p s) = next (of_ctx p) (extends s)

pub by_send :
    {h : Host} (peer : String) (bytes : Bytes) (c : MuxCore) → CoreSteps h c (send_to peer bytes c)
by_send peer bytes c = one (extends (sends peer bytes refl))

pub by_broadcast : {h : Host} (bytes : Bytes) (c : MuxCore) → CoreSteps h c (broadcast h bytes c)
by_broadcast bytes c = one (extends (broadcasts bytes refl))

-- Induction over a run of the core.
pub keep_core {ℓ} :
    {h : Host} (P : MuxCore → Type ℓ)
    → ((c d : MuxCore) → CoreStep h c d → P c → P d)
    → {c d : MuxCore} → CoreSteps h c d
    → P c
    → P d
keep_core P keep here p = p
keep_core P keep (next {d = d} {e = e} steps s) p = keep d e s (keep_core P keep steps p)
