-- ===== src/Mux/Proofs/Ttl.antt =====
-- The time to live: the actor ends by it exactly when nobody is attached.
use acp_mux.Base.{◌≡◌, if◌then◌else◌, arith}
use acp_mux.Host.{Host}
use acp_mux.Extension.{MuxExtension}
use acp_mux.Mux.Run.{Actor, running, ttl_expired, no_one, step, select, sync_ttl, ttl_elapsed}

-- When the timer goes off in a running actor, the actor ends if nobody is attached, and otherwise
-- goes on, whatever the timer's state was before.
pub ttl_ends_alone :
    (h : Host) {E : Type 0} (x : MuxExtension E) (a : Actor E)
    → a.status ≡ running
    → (step h x a ttl_elapsed).status
      ≡ (if no_one a.mux.core.subscribers then ttl_expired else running)
unfolding step select sync_ttl
ttl_ends_alone h x a up = ground arith
