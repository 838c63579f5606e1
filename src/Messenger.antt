-- ===== src/Messenger.antt =====
-- net/messenger.go and net/encryption.go: messages that are sent until they are acknowledged.
pub mod Defs
pub mod Encryption
pub mod Envelope
pub mod Sealed
pub mod Servers
pub mod Deliver
pub mod Arrival
pub mod Download
pub mod Received
pub mod Send
pub mod Steps
pub mod Balance
pub mod Rows
pub mod Outbox
pub mod Retry
