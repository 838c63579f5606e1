-- ===== src/Order/Stages.antt =====
-- models/orders.go: the phases of an order's life, as CanReject to CanDispute see them.
use openbazaar.Prelude.{true, false, ◌≡◌, arith}
use openbazaar.Exec.{ok}
use openbazaar.Proto.Codec.{Codec}
use openbazaar.Order.Defs.{Order}
use openbazaar.Order.Status.{
  can_reject, can_confirm, can_cancel, can_refund, can_fulfill, can_complete, can_dispute,
}

-- While an order can be confirmed it can be rejected too, and it can be neither cancelled nor
-- fulfilled nor completed on this node.
pub confirm_phase :
    (c : Codec) (o : Order)
    → can_confirm c o ≡ true
    → (can_reject c o ≡ true)
      × (can_cancel c o ≡ false)
      × (can_fulfill c o ≡ ok false)
      × (can_complete c o ≡ false)
unfolding can_confirm can_reject can_cancel can_fulfill can_complete
confirm_phase c o h = ground arith

-- Where the buyer may complete an order he may dispute it too, and every action of the vendor is
-- closed on this node.
pub complete_phase :
    (c : Codec) (o : Order)
    → can_complete c o ≡ true
    → (can_dispute c o ≡ true)
      × (can_reject c o ≡ false)
      × (can_confirm c o ≡ false)
      × (can_refund c o ≡ false)
      × (can_fulfill c o ≡ ok false)
unfolding can_complete can_dispute can_reject can_confirm can_refund can_fulfill
complete_phase c o h = ground arith

-- An order that the vendor may fulfill has left the phase of the decision: it can be neither
-- rejected nor confirmed nor cancelled.
pub fulfill_phase :
    (c : Codec) (o : Order)
    → can_fulfill c o ≡ ok true
    → (can_reject c o ≡ false) × (can_confirm c o ≡ false) × (can_cancel c o ≡ false)
unfolding can_fulfill can_reject can_confirm can_cancel
fulfill_phase c o h = ground arith
