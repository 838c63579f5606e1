-- ===== src/Order.antt =====
-- models/orders.go: the order as the database keeps it.
pub mod Defs
pub mod Read
pub mod Put
pub mod Parked
pub mod Status
pub mod Fields
pub mod Stages
pub mod Settled
pub mod Fulfilled
pub mod Payments
pub mod Transactions
pub mod ParkedLaws
pub mod Fulfillments
pub mod Contract
