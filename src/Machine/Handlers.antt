-- ===== src/Machine/Handlers.antt =====
-- processMessage of orders/processor.go as moves of the machine.
use openbazaar.Prelude.{◌≡◌, refl, sym, subst, arith}
use openbazaar.Exec.{ok, err, unknown_message_type}
use openbazaar.Exec.Keeps.{Leaves, leave, after_lift, after_gets, after_if, after_step}
use openbazaar.Proto.Common.{Text}
use openbazaar.Proto.Net.{
  MessageType, OrderMessage, order_open, order_reject, order_cancel, order_confirmation,
  rating_signatures, order_fulfillment, order_complete, dispute_open, refund, payment_sent,
}
use openbazaar.Processor.Env.{Env, World}
use openbazaar.Processor.Events.{declined, canceled, confirmed}
use openbazaar.Processor.Decisions.{
  process_order_reject, process_order_cancel, process_order_confirmation,
}
use openbazaar.Processor.Process.{handle, process_message}
use openbazaar.Machine.Moves.{Flags, flags, Moves, here}
use openbazaar.Machine.Deliveries.{fulfillment-From, ratings-From}
use openbazaar.Machine.Opening.{open-From}
use openbazaar.Machine.Disputes.{dispute-From}
use openbazaar.Machine.Funding.{payment-From}
use openbazaar.Machine.Releases.{complete-From, refund-From}
use openbazaar.Machine.Invariant.{IsConsistent, Moves-IsConsistent}
use openbazaar.Machine.Steps.{From, From-with_order_open, From-end, still, fail_if_ok}
use openbazaar.Machine.Payments.{note_cancelable-Same}

module _ (env : Env) (m : OrderMessage) (f : Flags) (w : World) (from : From f w) where
  reject-From : m.message_type ≡ order_reject → Leaves (From f) (process_order_reject env m) w
  unfolding process_order_reject flags
  reject-From h = after_lift from λ msg _. after_gets _ _ (
      after_lift from λ dup _.
        after_if {b = dup} (λ _. leave (ok tt) w from)
          λ _. after_lift from λ u g. From-with_order_open env m f w from _ λ opened _.
            after_gets _ _ (
              after_lift from
                λ n _. From-end env m f (declined n) w from h (ground (arith, fail_if_ok _ _ g))))

  cancel-From : m.message_type ≡ order_cancel → Leaves (From f) (process_order_cancel env m) w
  unfolding process_order_cancel
  cancel-From h = after_lift from λ msg _. after_gets _ _ (
      after_lift from λ dup _.
        after_if {b = dup} (λ _. leave (ok tt) w from)
          λ _. From-with_order_open env m f w from _ λ opened o.
            after_step (λ t s. subst (Moves f) (sym s) from)
              (note_cancelable-Same env (flags w.order) opened msg.transaction_id w refl)
              λ u t e s.
                let now = subst (Moves f) (sym s) from in
                after_gets _ _ (
                  after_lift now
                    λ n _. From-end env m f (canceled n) t now h (still order_cancel t s o)))

  confirmation-From :
      m.message_type ≡ order_confirmation → Leaves (From f) (process_order_confirmation env m) w
  unfolding process_order_confirmation flags
  confirmation-From h = after_lift from λ msg _. after_gets _ _ (
      after_lift from λ dup _.
        after_if {b = dup} (λ _. leave (ok tt) w from)
          λ _. after_lift from λ u g. From-with_order_open env m f w from _ λ opened o.
            after_step (λ t s. subst (Moves f) (sym s) from)
              (note_cancelable-Same env (flags w.order) opened msg.transaction_id w refl)
              λ v t e s.
                let now = subst (Moves f) (sym s) from in
                after_gets _ _ (
                  after_lift now λ n _.
                    From-end env m f (confirmed n) t now h
                      (still order_confirmation t s (ground (arith, fail_if_ok _ _ g, o)))))

handle-From :
    (env : Env) (peer : Text) (m : OrderMessage) (f : Flags) (w : World) (t : MessageType)
    → m.message_type ≡ t
    → IsConsistent (flags w.order)
    → From f w
    → Leaves (From f) (handle t env peer m) w
unfolding handle
handle-From env peer m f w order_open h i from = open-From env f peer m w from i h
handle-From env peer m f w order_reject h i from = reject-From env m f w from h
handle-From env peer m f w order_cancel h i from = cancel-From env m f w from h
handle-From env peer m f w order_confirmation h i from = confirmation-From env m f w from h
handle-From env peer m f w rating_signatures h i from = ratings-From env m f w from h
handle-From env peer m f w order_fulfillment h i from = fulfillment-From env m f w from h
handle-From env peer m f w order_complete h i from = complete-From env m f w from h
handle-From env peer m f w refund h i from = refund-From env m f w from h
handle-From env peer m f w dispute_open h i from = dispute-From env f m w from h
handle-From env peer m f w payment_sent h i from = payment-From env f m w from h
handle-From env peer m f w _ h i from = leave (err unknown_message_type) w from

-- From a consistent order, however the processing of a message of any type ends, in success, in an
-- error or in a panic, the order that it leaves came from the order before it by moves that the
-- protocol admits: ORDER_OPEN at any time; ORDER_REJECT only where no ORDER_CONFIRMATION is saved; each
-- other type only after ORDER_OPEN, ORDER_CONFIRMATION only where no ORDER_REJECT is saved,
-- ORDER_FULFILLMENT only after ORDER_CONFIRMATION and where no ORDER_REJECT is saved, ORDER_COMPLETE and
-- REFUND only where no ORDER_CANCEL is saved, and DISPUTE_OPEN only where no ORDER_COMPLETE,
-- PAYMENT_FINALIZED, ORDER_REJECT or ORDER_CANCEL is saved; DISPUTE_CLOSE, PAYMENT_FINALIZED and unknown
-- types never.
pub process_message-Moves :
    (env : Env) (peer : Text) (m : OrderMessage) (w : World)
    → IsConsistent (flags w.order)
    → Moves (flags w.order) (flags (process_message env peer m w).1.order)
unfolding process_message
process_message-Moves env peer m w i =
    (after_lift {Q = From (flags w.order)} here
      λ u _. handle-From env peer m (flags w.order) w m.message_type refl i here).holds

-- The processing of a message of any type, however it ends, leaves a consistent order if it starts
-- from one: no order is both rejected and confirmed, a message other than ORDER_REJECT comes with the
-- ORDER_OPEN, a fulfilled order was confirmed, and there is neither a DISPUTE_CLOSE nor a
-- PAYMENT_FINALIZED.
pub process_message-IsConsistent :
    (env : Env) (peer : Text) (m : OrderMessage) (w : World)
    → IsConsistent (flags w.order)
    → IsConsistent (flags (process_message env peer m w).1.order)
process_message-IsConsistent env peer m w i =
    Moves-IsConsistent (process_message-Moves env peer m w i) i
