-- ===== src/Network.antt =====
-- net/ban_manager.go, net/service.go and net/message_sender.go: the connection to other peers.
pub mod Bans
pub mod Service
pub mod Sender
