-- ===== src/Processor/Decisions.antt =====
-- orders/order_reject.go, order_cancel.go and order_confirmation.go.
use openbazaar.Prelude.{none, some, List, [], ◌∷◌, ◌&&◌, not, is_some, str_eq, if◌then◌else◌}
use openbazaar.Exec.{
  ok, or_external, or_panic, fail_if, Exec, pure, lift, gets, ◌>>=◌, ◌>>◌, unexpected_message,
}
use openbazaar.Proto.Common.{Text}
use openbazaar.Proto.Net.{OrderMessage}
use openbazaar.Proto.Orders.{OrderOpen, OrderCancel, OrderConfirmation, Payment}
use openbazaar.Proto.Codec.{SpendInfo, Transaction, reject_kind, cancel_kind, confirmation_kind}
use openbazaar.Order.Read.{vendor_of}
use openbazaar.Order.Put.{put_message}
use openbazaar.Order.Status.{is_cancelable}
use openbazaar.Processor.Events.{declined, canceled, confirmed, notice_of}
use openbazaar.Processor.Env.{Env, Wallet, World, on_order, returning}
use openbazaar.Processor.Guards.{seen_before, with_order_open}
use openbazaar.Processor.Payments.{process_outgoing_payment}

-- The rest of processOrderRejectMessage, once the order has been opened.
finish_reject : Env → OrderMessage → OrderOpen → Exec World (Unit {0})
finish_reject env m opened = do
  id ← gets (λ w. w.order.id)
  n ← lift (notice_of id opened (vendor_of opened))
  returning (declined n) (on_order (put_message env.codec m))

unfoldable pub process_order_reject : Env → OrderMessage → Exec World (Unit {0})
unfolding finish_reject
process_order_reject env m = do
  msg ← lift (or_external (env.codec.unmarshal_any reject_kind m.message))
  o ← gets (λ w. w.order)
  dup ← lift (seen_before env.codec reject_kind msg o.order_reject.serialized)
  if dup then pure tt else (do
    lift (fail_if (is_some o.order_confirmation.serialized) unexpected_message)
    with_order_open env m (finish_reject env m))

-- `for _, from := range tx.From`: each input from the payment address is handed on.
unfoldable pub scan_inputs : Env → Transaction → Text → List SpendInfo → Exec World (Unit {0})
scan_inputs env tx address [] = pure tt
scan_inputs env tx address (from ∷ rest) =
    let later = scan_inputs env tx address rest in
    if str_eq from.address address then process_outgoing_payment env tx >> later else later

-- GetTransaction, whose error is ignored, and the loop.
unfoldable pub note_release : Env → Wallet → Text → Exec World (Unit {0})
unfolding scan_inputs
note_release env wallet txid w = elim (wallet.get_transaction txid) [
  | none ↦ (ok tt, w)
  | some tx ↦ scan_inputs env tx w.order.payment_address (Transaction.from tx) w
]

-- The release of a cancelable address that CONFIRMATION and CANCEL may name.
unfoldable pub note_cancelable : Env → OrderOpen → Text → Exec World (Unit {0})
unfolding note_release
note_cancelable env opened txid = do
  p ← lift (or_panic opened.payment)
  wallet ← lift (or_external (env.wallet_for (Payment.coin p)))
  if not (str_eq txid "") && is_cancelable (Payment.method p)
      then note_release env wallet txid
      else pure tt

finish_cancel : Env → OrderMessage → Text → OrderOpen → Exec World (Unit {0})
unfolding note_cancelable
finish_cancel env m txid opened = do
  note_cancelable env opened txid
  id ← gets (λ w. w.order.id)
  n ← lift (notice_of id opened (or_panic opened.buyer_id))
  returning (canceled n) (on_order (put_message env.codec m))

-- After ORDER_REJECT or ORDER_CONFIRMATION a cancel is only logged as a race.
unfoldable pub process_order_cancel : Env → OrderMessage → Exec World (Unit {0})
unfolding finish_cancel
process_order_cancel env m = do
  msg ← lift (or_external (env.codec.unmarshal_any cancel_kind m.message))
  o ← gets (λ w. w.order)
  dup ← lift (seen_before env.codec cancel_kind msg o.order_cancel.serialized)
  if dup
      then pure tt
      else with_order_open env m (finish_cancel env m (OrderCancel.transaction_id msg))

finish_confirmation : Env → OrderMessage → Text → OrderOpen → Exec World (Unit {0})
unfolding note_cancelable
finish_confirmation env m txid opened = do
  note_cancelable env opened txid
  id ← gets (λ w. w.order.id)
  n ← lift (notice_of id opened (vendor_of opened))
  returning (confirmed n) (on_order (put_message env.codec m))

unfoldable pub process_order_confirmation : Env → OrderMessage → Exec World (Unit {0})
unfolding finish_confirmation
process_order_confirmation env m = do
  msg ← lift (or_external (env.codec.unmarshal_any confirmation_kind m.message))
  o ← gets (λ w. w.order)
  dup ← lift (seen_before env.codec confirmation_kind msg o.order_confirmation.serialized)
  if dup then pure tt else (do
    lift (fail_if (is_some o.order_reject.serialized) unexpected_message)
    with_order_open env m (finish_confirmation env m (OrderConfirmation.transaction_id msg)))
