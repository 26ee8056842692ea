-- ===== src/Mux.antt =====
-- crates/acp-mux/src/mux/actor.rs: the handlers of the mux, over an arbitrary extension.
pub mod Attach
pub mod Session
pub mod Local
pub mod Inbound
pub mod Agent
pub mod Run
pub mod Snapshot
pub mod Steps
pub mod State
pub mod Proofs
