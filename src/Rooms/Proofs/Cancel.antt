-- ===== src/Rooms/Proofs/Cancel.antt =====
-- The cancelling of a turn.
use acp_mux.Host.{Host}
