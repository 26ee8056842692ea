-- ===== src/Rooms/Proofs.antt =====
-- The properties of the Rooms server.
pub mod Reached
pub mod Turns
pub mod Fifo
pub mod Refused
pub mod Views
pub mod Index
pub mod Cancel
pub mod Unqueue
pub mod Registered
