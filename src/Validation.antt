-- ===== src/Validation.antt =====
-- orders/order_open.go: the checks of an order that is opened.
pub mod Defs
pub mod Items
pub mod Open
pub mod Valid
pub mod Accepted
pub mod Escrow
pub mod Escrowed
pub mod Identity
pub mod Rating
