-- ===== src/Mux/State.antt =====
-- Properties of the whole state, of the core and of the extension together, that hold between the
-- messages of the actor. A turn that ends leaves a gap, which `on_prompt_settled` closes.
pub mod OfParts
pub mod OfSubscriber
pub mod OfAgent
pub mod OfRun
use acp_mux.Base.{ℕ, ◌≡◌, refl, String, Bool, true, Option, is_some, none, some, if_case}
use acp_mux.Jsonrpc.{RequestId, IncomingRequest, IncomingNotification, IncomingResponse}
use acp_mux.Host.{Host, Bytes}
use acp_mux.Attach.{AttachParams, AttachResult}
use acp_mux.Core.{Subscriber, ReplayEntry, MuxCore}
use acp_mux.Core.Send.{record_frame, broadcast}
use acp_mux.Extension.{Mux, MuxExtension, ResolvedBy}

-- What the property `P` needs: the core may change beside the prompt in flight, each hook keeps `P`,
-- and in the gap, where `W` alone holds, the end of the turn brings `P` back.
pub record KeepsState {E : Type 0} (x : MuxExtension E) (W P : Mux E → Type 0) : Type 0 where
  pub aside :
      (m : Mux E) (d : MuxCore)
      → d.prompt_in_flight ≡ m.core.prompt_in_flight
      → P m
      → P (record m { core = d })
  pub begins :
      (m : Mux E) (d : MuxCore)
      → is_some d.prompt_in_flight ≡ true
      → P m
      → P (record m { core = d })
  pub lapses : (m : Mux E) (d : MuxCore) → P m → W (record m { core = d })
  pub drifts : (m : Mux E) (d : MuxCore) → W m → W (record m { core = d })
  pub lapsed_resolved :
      (m : Mux E) (i : RequestId) (b : ResolvedBy) (r : Option IncomingResponse)
      → W m
      → W (x.on_agent_request_resolved m i b r)
  pub settled : (m : Mux E) (n : ℕ) (r : IncomingResponse) → W m → P (x.on_prompt_settled m n r)
  pub subscriber_request :
      (m : Mux E) (p : String) (r : IncomingRequest) → P m → P (x.on_subscriber_request m p r).0
  pub request_translating :
      (m : Mux E) (p : String) (n : ℕ) (r : IncomingRequest)
      → P m
      → P (x.on_request_translating m p n r).0
  pub request_forwarded :
      (m : Mux E) (p : String) (n : ℕ) (r : IncomingRequest)
      → P m
      → P (x.on_request_forwarded m p n r)
  pub subscriber_notification :
      (m : Mux E) (p : String) (n : IncomingNotification)
      → P m
      → P (x.on_subscriber_notification m p n).0
  pub agent_notification :
      (m : Mux E) (n : IncomingNotification) → P m → P (x.on_agent_notification m n)
  pub agent_request :
      (m : Mux E) (i : RequestId) (r : IncomingRequest) → P m → P (x.on_agent_request m i r)
  pub agent_response :
      (m : Mux E) (n : ℕ) (r : IncomingResponse) → P m → P (x.on_agent_response m n r).0
  pub agent_request_resolved :
      (m : Mux E) (i : RequestId) (b : ResolvedBy) (r : Option IncomingResponse)
      → P m
      → P (x.on_agent_request_resolved m i b r)
  pub canonical_session_id :
      (m : Mux E) (old : Option String) (s : String) (via_load : Bool)
      → P m
      → P (x.on_canonical_session_id m old s via_load)
  pub subscriber_attaching : (m : Mux E) (s : Subscriber) → P m → P (x.on_subscriber_attaching m s)
  pub subscriber_attached : (m : Mux E) (p : String) → P m → P (x.on_subscriber_attached m p)
  pub subscriber_detached : (m : Mux E) (p : String) → P m → P (x.on_subscriber_detached m p)
  pub attach :
      (m : Mux E) (p : String) (a : AttachParams) (r : AttachResult)
      → P m
      → P (x.on_attach m p a r).0
  pub replay : (m : Mux E) (e : ReplayEntry) → P m → P (x.replay_frame m e).0
  pub wake : (m : Mux E) (b : Bytes) → P m → P (x.on_wake m b)

pub broadcast_flight :
    (h : Host) (b : Bytes) (c : MuxCore) → (broadcast h b c).prompt_in_flight ≡ c.prompt_in_flight
unfolding broadcast record_frame
broadcast_flight h b c =
    elim c.replay_log as (λ log. (record_frame h b log c).prompt_in_flight ≡ c.prompt_in_flight) [
      | none ↦ refl
      | some log ↦ refl
    ]
