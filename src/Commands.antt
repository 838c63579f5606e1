-- ===== src/Commands.antt =====
-- core/: what the node's user does with an order. Each command reads the order, builds a signed message,
-- runs it through the node's own processor and queues it for the other party, and some move money.
pub mod Defs
pub mod Release
pub mod Decisions
pub mod Refunds
pub mod Fulfillments
pub mod Swept
pub mod Released
pub mod Rules
pub mod Bodies
pub mod Run
pub mod Atomic
pub mod Life
pub mod Settled
pub mod Cancelled
