-- ===== src/Order/Settled.antt =====
-- models/orders.go: PutMessage, and the decision that an order waits for.
use openbazaar.Prelude.{Bool, true, false, none, ◌≡◌, ◌≢◌, arith}
use openbazaar.Exec.{ok}
use openbazaar.Proto.Net.{
  MessageType, OrderMessage, order_open, rating_signatures, payment_sent, other_type,
}
use openbazaar.Proto.Codec.{Codec}
use openbazaar.Order.Defs.{Order}
use openbazaar.Order.Put.{put_message}
use openbazaar.Order.Status.{can_reject, can_confirm, can_cancel, progressed}
use openbazaar.Order.Fields.{field, Ended, put_message_frame}

-- The messages that take an order past the phase in which it waits for a decision.
abbrev pub advances : MessageType → Bool
advances order_open = false
advances rating_signatures = false
advances payment_sent = false
advances (other_type n) = false
advances _ = true

progressed-field :
    (t : MessageType) (o : Order) → advances t ≡ true → field t o ≢ none → progressed o ≡ true
unfolding progressed
progressed-field order_open o a h = ground arith
progressed-field _ o a h = ground arith

closed_of_progressed :
    (c : Codec) (o : Order)
    → progressed o ≡ true
    → (can_reject c o ≡ false) × (can_confirm c o ≡ false) × (can_cancel c o ≡ false)
unfolding can_reject can_confirm can_cancel
closed_of_progressed c o h = ground arith

Ended-ok :
    (t : MessageType) (c : Codec) (m : OrderMessage) (o : Order)
    → (put_message c m o).0 ≡ ok tt
    → Ended t o (put_message c m o).0 (put_message c m o).1
    → field t (put_message c m o).1 ≢ none
Ended-ok t c m o h e = rw h at e

-- Once a message other than ORDER_OPEN, RATING_SIGNATURES and PAYMENT_SENT is put without error,
-- the order can be neither rejected nor confirmed nor cancelled.
pub put_message_settles :
    (c : Codec) (m : OrderMessage) (o : Order)
    → advances m.message_type ≡ true
    → (put_message c m o).0 ≡ ok tt
    → let p = (put_message c m o).1 in
      (can_reject c p ≡ false) × (can_confirm c p ≡ false) × (can_cancel c p ≡ false)
put_message_settles c m o a h =
    let p : Order = (put_message c m o).1 in
    closed_of_progressed c p (
      progressed-field m.message_type p a
        (Ended-ok m.message_type c m o h (put_message_frame c m o).1))
