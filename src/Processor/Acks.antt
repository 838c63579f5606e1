-- ===== src/Processor/Acks.antt =====
-- orders/processor.go: ProcessACK, and the part of handleAckMessage in core/network.go that works on the
-- database.
use openbazaar.Prelude.{
  Bool, true, false, Option, none, some, List, [], ◌∷◌, ◌||◌, str_eq, if◌then◌else◌,
}
use openbazaar.Exec.{
  Error, Result, ok, err, panic, or_external, or_err, fail_if, unknown_message_type,
  unexpected_message, external, not_found,
}
use openbazaar.Exec.Results.{◌>>=◌, ◌>>◌}
use openbazaar.Proto.Common.{Bytes, Text}
use openbazaar.Proto.Net.{
  MessageType, NetType, NetMessage, OrderMessage, order_open, order_reject, order_cancel,
  order_confirmation, rating_signatures, order_fulfillment, order_complete, dispute_open,
  dispute_update, dispute_close, refund, payment_sent, payment_finalized, other_type,
}
use openbazaar.Order.Defs.{Order, Acks}
use openbazaar.Messenger.Defs.{OutgoingMessage, delete_row}
use openbazaar.Messenger.Rows.{find_row}

-- The columns of an order that an ACK sets.
pub data AckKey : Type 0 where
  order_open_key order_reject_key order_cancel_key order_confirmation_key : AckKey
  rating_signatures_key order_fulfillment_key order_complete_key : AckKey
  dispute_open_moderator_key dispute_open_other_party_key : AckKey
  dispute_update_key dispute_closed_key refund_key : AckKey
  payment_sent_key payment_finalized_key : AckKey

abbrev pub dispute_key : NetType → AckKey
dispute_key NetType.dispute = dispute_open_moderator_key
dispute_key _ = dispute_open_other_party_key

-- The switch of ProcessACK.
unfoldable pub ack_key : MessageType → NetType → Option AckKey
ack_key order_open n = some order_open_key
ack_key order_reject n = some order_reject_key
ack_key order_cancel n = some order_cancel_key
ack_key order_confirmation n = some order_confirmation_key
ack_key order_fulfillment n = some order_fulfillment_key
ack_key order_complete n = some order_complete_key
ack_key dispute_open n = some (dispute_key n)
ack_key dispute_update n = some dispute_update_key
ack_key dispute_close n = some dispute_closed_key
ack_key refund n = some refund_key
ack_key payment_sent n = some payment_sent_key
ack_key rating_signatures n = some rating_signatures_key
ack_key payment_finalized n = some payment_finalized_key
ack_key (other_type k) n = none

-- Update of the column to true.
unfoldable pub set_acked : AckKey → Acks → Acks
set_acked order_open_key a = record a { order_open_acked = true }
set_acked order_reject_key a = record a { order_reject_acked = true }
set_acked order_cancel_key a = record a { order_cancel_acked = true }
set_acked order_confirmation_key a = record a { order_confirmation_acked = true }
set_acked rating_signatures_key a = record a { rating_signatures_acked = true }
set_acked order_fulfillment_key a = record a { order_fulfillment_acked = true }
set_acked order_complete_key a = record a { order_complete_acked = true }
set_acked dispute_open_moderator_key a = record a { dispute_open_moderator_acked = true }
set_acked dispute_open_other_party_key a = record a { dispute_open_other_party_acked = true }
set_acked dispute_update_key a = record a { dispute_update_acked = true }
set_acked dispute_closed_key a = record a { dispute_closed_acked = true }
set_acked refund_key a = record a { refund_acked = true }
set_acked payment_sent_key a = record a { payment_sent_acked = true }
set_acked payment_finalized_key a = record a { payment_finalized_acked = true }

-- The rows of the two tables, as the transaction sees them.
pub record Tables : Type 0 where
  pub orders : List Order
  pub outgoing : List OutgoingMessage

-- proto.Unmarshal of a Message, ptypes.UnmarshalAny of its payload and of that of an ACK, and whether the
-- database can be read, accepts a write and commits.
pub record AckEnv : Type 0 where
  pub unmarshal_ack : Bytes → Option Text
  pub can_read : Bool
  pub can_commit : Bool
  pub unmarshal_message : Bytes → Option NetMessage
  pub unmarshal_order_message : Bytes → Option OrderMessage
  pub can_update : Bool
  pub can_delete : Bool
  -- pb.Message_ORDER and pb.Message_DISPUTE, as texts
  pub order_type : Text
  pub dispute_type : Text

-- tx.Update of the orders with the ID; there may be none.
unfoldable pub update_acked : AckKey → Text → List Order → List Order
unfolding set_acked
update_acked k id [] = []
update_acked k id (o ∷ os) =
    (if str_eq o.id id then record o { acks = set_acked k o.acks } else o) ∷ update_acked k id os

-- ProcessACK: what it does to the orders.
unfoldable pub process_order_ack : AckEnv → OutgoingMessage → List Order → Result (List Order)
unfolding ack_key update_acked
process_order_ack env om orders = do
  message ← or_external (env.unmarshal_message om.serialized_message)
  order_message ← or_external (env.unmarshal_order_message (NetMessage.payload message))
  key ←
      or_err unknown_message_type
        (ack_key (OrderMessage.message_type order_message) (NetMessage.net_type message))
  if env.can_update
      then ok (update_acked key (OrderMessage.order_id order_message) orders)
      else err external

abbrev pub is_order_row : AckEnv → OutgoingMessage → Bool
is_order_row env om =
    str_eq om.message_type env.order_type || str_eq om.message_type env.dispute_type

-- The transaction of handleAckMessage. The error `not_found` is that of a row that does not exist.
unfoldable pub ack_rows : AckEnv → Text → Tables → Result Tables
unfolding find_row process_order_ack delete_row
ack_rows env id t = do
  fail_if (if env.can_read then false else true) external
  om ← or_err not_found (find_row id t.outgoing)
  orders ← if is_order_row env om then process_order_ack env om t.orders else ok t.orders
  fail_if (if env.can_delete then false else true) external
  ok (record { orders = orders; outgoing = delete_row id t.outgoing })

abbrev pub is_not_found : Error → Bool
is_not_found not_found = true
is_not_found _ = false

-- The end of the transaction. An error rolls it back; it is returned, unless there is no row.
abbrev pub committed : AckEnv → Tables → Result Tables → Result (Unit {0}) × Tables
committed env t (ok u) = if env.can_commit then (ok tt, u) else (err external, t)
committed env t (err e) = (if is_not_found e then ok tt else err e, t)
committed env t panic = (panic, t)

abbrev pub is_ack : NetType → Bool
is_ack NetType.ack = true
is_ack _ = false

unfoldable pub handle_ack_message : AckEnv → NetMessage → Tables → Result (Unit {0}) × Tables
unfolding ack_rows
handle_ack_message env m t =
    if is_ack m.net_type
    then elim (env.unmarshal_ack m.payload) [
      | none ↦ (err external, t)
      | some id ↦ committed env t (ack_rows env id t)
    ]
    else (err unexpected_message, t)
