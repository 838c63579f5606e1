-- ===== src/Examples.antt =====
-- The theorems at concrete inputs.
mod Toy
mod Orders
mod Processing
mod Messaging
mod Mailing
mod Selling
mod Opening
mod Listing
mod Commands
