-- ===== src/Proto/Net.antt =====
-- net/pb/msg.proto: what two nodes exchange.
use openbazaar.Prelude.{ℕ, ◌+◌}
use openbazaar.Proto.Common.{Bytes, Text}

-- OrderMessage.MessageType; the enum is open, so a peer may send any other number
pub data MessageType : Type 0 where
  order_open order_reject order_cancel order_confirmation : MessageType
  rating_signatures order_fulfillment order_complete : MessageType
  dispute_open dispute_update dispute_close : MessageType
  refund payment_sent payment_finalized : MessageType
  other_type : ℕ → MessageType

-- The number that the enum gives the type; `other_type n` is the number 13 + n.
abbrev pub type_number : MessageType → ℕ
type_number order_open = 0
type_number order_reject = 1
type_number order_cancel = 2
type_number order_confirmation = 3
type_number rating_signatures = 4
type_number order_fulfillment = 5
type_number order_complete = 6
type_number dispute_open = 7
type_number dispute_update = 8
type_number dispute_close = 9
type_number refund = 10
type_number payment_sent = 11
type_number payment_finalized = 12
type_number (other_type n) = 13 + n

-- OrderMessage; `message` is the Any that wraps the typed message
pub record OrderMessage : Type 0 where
  pub order_id : Text
  pub message_type : MessageType
  pub message : Bytes
  pub signature : Bytes

-- Message.MessageType, as far as the order code tells it apart
pub data NetType : Type 0 where
  ack order dispute : NetType
  other_net_type : ℕ → NetType

-- Message
pub record NetMessage : Type 0 where
  pub net_type : NetType
  pub message_id : Text
  pub sequence : ℕ
  pub payload : Bytes
