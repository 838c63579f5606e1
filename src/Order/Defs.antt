-- ===== src/Order/Defs.antt =====
-- models/orders.go: type Order. The pair of fields SerializedX and XSignature is the slot `x`, the
-- flags XAcked are the record `acks`. A field SerializedX is nil, here `none`, until it is written.
use openbazaar.Prelude.{ℕ, Bool, false, Option, none}
use openbazaar.Proto.Common.{Bytes, Text}

-- OrderRole; `no_role` is the empty text of a new Order.
pub data OrderRole : Type 0 where
  no_role role_unknown role_buyer role_vendor role_moderator : OrderRole

pub record Slot : Type 0 where
  pub serialized : Option Bytes
  pub signature : Text

pub record Acks : Type 0 where
  pub order_open_acked : Bool
  pub order_reject_acked : Bool
  pub order_cancel_acked : Bool
  pub order_confirmation_acked : Bool
  pub rating_signatures_acked : Bool
  pub order_complete_acked : Bool
  pub dispute_open_other_party_acked : Bool
  pub dispute_open_moderator_acked : Bool
  pub dispute_update_acked : Bool
  pub dispute_closed_acked : Bool
  pub payment_finalized_acked : Bool
  pub order_fulfillment_acked : Bool
  pub refund_acked : Bool
  pub payment_sent_acked : Bool

pub record Order : Type 0 where
  pub id : Text
  pub payment_address : Text
  pub transactions : Option Bytes
  pub my_role : OrderRole
  pub is_open : Bool
  pub last_check_for_payments : ℕ
  pub rescan_performed : Bool
  pub order_open : Slot
  pub order_reject : Slot
  pub order_cancel : Slot
  pub order_confirmation : Slot
  pub rating_signatures : Slot
  pub order_complete : Slot
  pub dispute_open : Slot
  pub dispute_update : Slot
  pub dispute_closed : Slot
  pub payment_finalized : Slot
  pub order_fulfillments : Option Bytes
  pub refunds : Option Bytes
  pub payment_sent : Option Bytes
  pub parked_messages : Option Bytes
  pub errored_messages : Option Bytes
  pub acks : Acks

abbrev pub empty_slot : Slot
empty_slot = record { serialized = none; signature = "" }

abbrev pub no_acks : Acks
no_acks = record {
  order_open_acked = false;
  order_reject_acked = false;
  order_cancel_acked = false;
  order_confirmation_acked = false;
  rating_signatures_acked = false;
  order_complete_acked = false;
  dispute_open_other_party_acked = false;
  dispute_open_moderator_acked = false;
  dispute_update_acked = false;
  dispute_closed_acked = false;
  payment_finalized_acked = false;
  order_fulfillment_acked = false;
  refund_acked = false;
  payment_sent_acked = false;
}

-- `var order models.Order`
abbrev pub zero_order : Order
zero_order = record {
  id = "";
  payment_address = "";
  transactions = none;
  my_role = no_role;
  is_open = false;
  last_check_for_payments = 0;
  rescan_performed = false;
  order_open = empty_slot;
  order_reject = empty_slot;
  order_cancel = empty_slot;
  order_confirmation = empty_slot;
  rating_signatures = empty_slot;
  order_complete = empty_slot;
  dispute_open = empty_slot;
  dispute_update = empty_slot;
  dispute_closed = empty_slot;
  payment_finalized = empty_slot;
  order_fulfillments = none;
  refunds = none;
  payment_sent = none;
  parked_messages = none;
  errored_messages = none;
  acks = no_acks;
}

abbrev pub is_role_buyer : OrderRole → Bool
is_role_buyer role_buyer = Bool.true
is_role_buyer _ = false

abbrev pub is_role_vendor : OrderRole → Bool
is_role_vendor role_vendor = Bool.true
is_role_vendor _ = false
