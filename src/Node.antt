-- ===== src/Node.antt =====
-- core/network.go: how a node handles the order messages of its peers.
pub mod Defs
pub mod Orders
pub mod Once
pub mod Rows
