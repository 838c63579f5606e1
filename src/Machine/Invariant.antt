-- ===== src/Machine/Invariant.antt =====
-- The consistency of a state of the machine.
use openbazaar.Prelude.{true, false, ◌≡◌, ◌&&◌, ◌||◌, arith}
use openbazaar.Proto.Net.{MessageType, order_open}
use openbazaar.Machine.Moves.{Flags, with_flag, admissible, Moves, here, add}

pub record IsConsistent (f : Flags) : Type 0 where
  -- A message other than ORDER_REJECT comes with the ORDER_OPEN that it belongs to.
  pub opened :
      (f.has_cancel || f.has_confirmation || f.has_ratings || f.has_fulfillment || f.has_complete
          || f.has_dispute || f.has_update || f.has_refund || f.has_payment)
        ≡ true
      → f.has_open ≡ true
  -- No order is both rejected and confirmed.
  pub exclusive : (f.has_reject && f.has_confirmation) ≡ false
  -- What is fulfilled was confirmed.
  pub confirmed : f.has_fulfillment ≡ true → f.has_confirmation ≡ true
  -- The processor saves neither DISPUTE_CLOSE nor PAYMENT_FINALIZED.
  pub unhandled : (f.has_close || f.has_finalized) ≡ false

with_flag-IsConsistent :
    (t : MessageType) (f : Flags)
    → admissible t f ≡ true
    → IsConsistent f
    → IsConsistent (with_flag t f)
with_flag-IsConsistent order_open f a h = ground arith
with_flag-IsConsistent _ f a h = ground arith

-- Every move keeps the invariant.
pub Moves-IsConsistent : {f g : Flags} → Moves f g → IsConsistent f → IsConsistent g
Moves-IsConsistent here h = h
Moves-IsConsistent (add t m a e) h = rw e (with_flag-IsConsistent t _ a (Moves-IsConsistent m h))
