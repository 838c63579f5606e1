-- ===== src/Proto.antt =====
-- The protobuf messages (orders/pb, net/pb), as far as the node's code reads them.
pub mod Common
pub mod Orders
pub mod Net
pub mod Codec
