-- ===== src/Rooms/Proofs/Views.antt =====
-- crates/rooms/src/extension/attach_views.rs and mod.rs: what a client is shown of the history.
pub mod Wakes
pub mod Order
pub mod Stream
