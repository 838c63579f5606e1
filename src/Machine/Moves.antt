-- ===== src/Machine/Moves.antt =====
-- The abstract machine: its state says of each message type whether the order has one, and a move
-- adds a message where the protocol of orders/ allows it.
use openbazaar.Prelude.{Bool, true, false, ◌≡◌, ◌&&◌, ◌||◌, not, is_some}
use openbazaar.Proto.Net.{
  MessageType, order_open, order_reject, order_cancel, order_confirmation, rating_signatures,
  order_fulfillment, order_complete, dispute_open, dispute_update, dispute_close, refund,
  payment_sent, payment_finalized, other_type,
}
use openbazaar.Order.Defs.{Order}

pub record Flags : Type 0 where
  pub has_open : Bool
  pub has_reject : Bool
  pub has_cancel : Bool
  pub has_confirmation : Bool
  pub has_ratings : Bool
  pub has_fulfillment : Bool
  pub has_complete : Bool
  pub has_dispute : Bool
  pub has_update : Bool
  pub has_close : Bool
  pub has_refund : Bool
  pub has_payment : Bool
  pub has_finalized : Bool

-- Which fields of the order are not nil.
unfoldable pub flags : Order → Flags
flags o = record {
  has_open = is_some o.order_open.serialized;
  has_reject = is_some o.order_reject.serialized;
  has_cancel = is_some o.order_cancel.serialized;
  has_confirmation = is_some o.order_confirmation.serialized;
  has_ratings = is_some o.rating_signatures.serialized;
  has_fulfillment = is_some o.order_fulfillments;
  has_complete = is_some o.order_complete.serialized;
  has_dispute = is_some o.dispute_open.serialized;
  has_update = is_some o.dispute_update.serialized;
  has_close = is_some o.dispute_closed.serialized;
  has_refund = is_some o.refunds;
  has_payment = is_some o.payment_sent;
  has_finalized = is_some o.payment_finalized.serialized;
}

abbrev pub with_flag : MessageType → Flags → Flags
with_flag order_open f = record f { has_open = true }
with_flag order_reject f = record f { has_reject = true }
with_flag order_cancel f = record f { has_cancel = true }
with_flag order_confirmation f = record f { has_confirmation = true }
with_flag rating_signatures f = record f { has_ratings = true }
with_flag order_fulfillment f = record f { has_fulfillment = true }
with_flag order_complete f = record f { has_complete = true }
with_flag dispute_open f = record f { has_dispute = true }
with_flag dispute_update f = record f { has_update = true }
with_flag dispute_close f = record f { has_close = true }
with_flag refund f = record f { has_refund = true }
with_flag payment_sent f = record f { has_payment = true }
with_flag payment_finalized f = record f { has_finalized = true }
with_flag (other_type n) f = f

-- When the protocol lets an order take a message of the type.
abbrev pub admissible : MessageType → Flags → Bool
admissible order_open f = true
admissible order_reject f = not f.has_confirmation
admissible order_cancel f = f.has_open
admissible order_confirmation f = f.has_open && not f.has_reject
admissible rating_signatures f = f.has_open
admissible order_fulfillment f = f.has_open && f.has_confirmation && not f.has_reject
admissible order_complete f = f.has_open && not f.has_cancel
admissible dispute_open f =
    f.has_open && not (f.has_complete || f.has_finalized || f.has_reject || f.has_cancel)
admissible dispute_update f = f.has_open
admissible refund f = f.has_open && not f.has_cancel
admissible payment_sent f = f.has_open
admissible _ f = false

-- Any number of moves.
pub data Moves : Flags → Flags → Type 0 where
  here : {f : Flags} → Moves f f
  add :
      {f g h : Flags} (t : MessageType)
      → Moves f g
      → admissible t g ≡ true
      → h ≡ with_flag t g
      → Moves f h

pub Moves-trans : {f g h : Flags} → Moves f g → Moves g h → Moves f h
Moves-trans m here = m
Moves-trans m (add t n a e) = add t (Moves-trans m n) a e
