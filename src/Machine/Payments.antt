-- ===== src/Machine/Payments.antt =====
-- processOutgoingPayment of orders/transactions.go, and the loops that call it, as seen by the machine.
use openbazaar.Prelude.{Option, none, some, List, [], ◌∷◌, ◌≡◌, ◌&&◌, not, arith, str_eq}
use openbazaar.Exec.{Result, ok}
use openbazaar.Exec.Keeps.{Leaves, leave, after_lift, after_if, after_step}
use openbazaar.Proto.Common.{Text}
use openbazaar.Proto.Codec.{Transaction, SpendInfo}
use openbazaar.Proto.Orders.{OrderOpen, Payment}
use openbazaar.Order.Status.{is_cancelable}
use openbazaar.Processor.Env.{Env, Wallet, World}
use openbazaar.Processor.Payments.{process_outgoing_payment}
use openbazaar.Processor.Decisions.{scan_inputs, note_release, note_cancelable}
use openbazaar.Machine.Moves.{Flags, flags}
use openbazaar.Machine.Steps.{flags-put_transaction}

-- The flags of the order are those of `f`.
abbrev pub Same : Flags → World → Type 0
Same f w = flags w.order ≡ f

module _ (env : Env) (f : Flags) where
  pub outgoing-Same :
      (tx : Transaction) (w : World)
      → Same f w
      → Leaves (Same f) (process_outgoing_payment env tx) w
  unfolding process_outgoing_payment
  outgoing-Same tx w s = record {
    holds = ground (arith, flags-put_transaction env.codec tx w.order);
  }

  scan_inputs-Same :
      (tx : Transaction) (a : Text) (ins : List SpendInfo) (w : World)
      → Same f w
      → Leaves (Same f) (scan_inputs env tx a ins) w
  unfolding scan_inputs
  scan_inputs-Same tx a [] w s = leave _ w s
  scan_inputs-Same tx a (i ∷ is) w s =
      after_if
        (λ _.
          after_step (λ t p. p) (outgoing-Same tx w s) λ u t e s'. scan_inputs-Same tx a is t s')
        (λ _. scan_inputs-Same tx a is w s)

  -- What GetTransaction finds is scanned, and its error is passed over.
  release-Same :
      (r : Option Transaction) (w : World)
      → Same f w
      → let done : Result (Unit {0}) × World = elim r [
        | none ↦ (ok tt, w)
        | some tx ↦ scan_inputs env tx w.order.payment_address (Transaction.from tx) w
      ] in
        Same f done.1
  release-Same none w s = s
  release-Same (some tx) w s = (scan_inputs-Same tx w.order.payment_address tx.from w s).holds

  pub note_release-Same :
      (wallet : Wallet) (txid : Text) (w : World)
      → Same f w
      → Leaves (Same f) (note_release env wallet txid) w
  unfolding note_release
  note_release-Same wallet txid w s = record {
    holds = release-Same (wallet.get_transaction txid) w s;
  }

  pub note_cancelable-Same :
      (m : OrderOpen) (txid : Text) (w : World)
      → Same f w
      → Leaves (Same f) (note_cancelable env m txid) w
  unfolding note_cancelable
  note_cancelable-Same m txid w s = after_lift s λ p _. after_lift s λ wallet _.
      after_if {b = not (str_eq txid "") && is_cancelable (Payment.method p)}
        (λ _. note_release-Same wallet txid w s) (λ _. leave (ok tt) w s)
