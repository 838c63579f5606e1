-- ===== src/Pricing.antt =====
-- orders/order_open.go: what an order costs.
pub mod Defs
pub mod Amounts
pub mod Convert
pub mod Items
pub mod Shipping
pub mod Totals
pub mod AddUp
pub mod Single
pub mod Charges
pub mod OneItem
