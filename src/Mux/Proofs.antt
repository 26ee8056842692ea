-- ===== src/Mux/Proofs.antt =====
-- What holds of the mux, by subject.
pub mod AgentRequests
pub mod Requests
pub mod Session
pub mod Transcript
pub mod Replay
pub mod Ttl
pub mod TurnEnd
