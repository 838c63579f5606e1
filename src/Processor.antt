-- ===== src/Processor.antt =====
-- orders/: the order processor, its handlers and its treatment of payments.
pub mod Events
pub mod Env
pub mod Guards
pub mod Payments
pub mod Decisions
pub mod Progress
pub mod Escrow
pub mod Completion
pub mod Opening
pub mod Disputes
pub mod Process
pub mod Acks
pub mod Acked
pub mod Sorting
pub mod Repeated
pub mod Excluded
