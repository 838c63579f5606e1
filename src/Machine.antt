-- ===== src/Machine.antt =====
-- The life of an order as a state machine over which messages are saved, and the handlers of orders/
-- as moves of it.
pub mod Moves
pub mod Invariant
pub mod Steps
pub mod Payments
pub mod Deliveries
pub mod Releases
pub mod Disputes
pub mod Funding
pub mod Opening
pub mod Handlers
pub mod Saved
