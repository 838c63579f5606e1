-- ===== src/Processor/Progress.antt =====
-- orders/order_fulfillment.go, payment_sent.go and rating_signatures.go.
use openbazaar.Prelude.{
  none, some, List, [], ◌∷◌, ◌==◌, not, is_some, str_eq, length, exists_in, if◌then◌else◌,
}
use openbazaar.Exec.{
  Result, ok, err, panic, bind_result, or_external, or_panic, fail_if, Exec, pure, lift, gets,
  ◌>>=◌, ◌>>◌, unexpected_message, duplicate_transaction, wrong_signature_count, incorrect_slug,
  invalid_signature,
}
use openbazaar.Proto.Common.{Bytes, Text, PbId, Pubkeys}
use openbazaar.Proto.Net.{OrderMessage}
use openbazaar.Proto.Orders.{
  OrderOpen, OrderItem, Payment, RatingSignature, RatingSignatures, PaymentSent,
}
use openbazaar.Proto.Codec.{
  SpendInfo, Transaction, fulfillment_kind, payment_sent_kind, rating_signatures_kind,
}
use openbazaar.Order.Read.{vendor_of, order_confirmation_message, get_transactions}
use openbazaar.Order.Put.{put_message}
use openbazaar.Order.Status.{or_empty}
use openbazaar.Processor.Events.{
  fulfilled, payment_sent_received, rating_signatures_received, notice_of,
}
use openbazaar.Processor.Env.{Env, Wallet, World, on_order, returning}
use openbazaar.Processor.Guards.{seen_before, park_or, with_order_open}
use openbazaar.Processor.Payments.{process_incoming_payment, extract_listing}
use openbazaar.Order.Parked.{park_message}

finish_fulfillment : Env → OrderMessage → OrderOpen → Exec World (Unit {0})
finish_fulfillment env m opened = do
  id ← gets (λ w. w.order.id)
  n ← lift (notice_of id opened (vendor_of opened))
  returning (fulfilled n) (on_order (put_message env.codec m))

-- A fulfillment waits for the confirmation as well.
with_confirmation :
    Env → OrderMessage → (OrderOpen → Exec World (Unit {0})) → OrderOpen → Exec World (Unit {0})
with_confirmation env m k opened w =
    park_or (order_confirmation_message env.codec w.order) (on_order (park_message env.codec m))
      (λ _. k opened) w

unfoldable pub process_order_fulfillment : Env → OrderMessage → Exec World (Unit {0})
unfolding with_confirmation finish_fulfillment
process_order_fulfillment env m = do
  msg ← lift (or_external (env.codec.unmarshal_any fulfillment_kind m.message))
  o ← gets (λ w. w.order)
  lift (fail_if (is_some o.order_reject.serialized) unexpected_message)
  with_order_open env m (with_confirmation env m (finish_fulfillment env m))

-- `for _, to := range tx.To`
unfoldable pub scan_outputs : Env → Transaction → Text → List SpendInfo → Exec World (Unit {0})
scan_outputs env tx address [] = pure tt
scan_outputs env tx address (to ∷ rest) =
    let later = scan_outputs env tx address rest in
    if str_eq to.address address then process_incoming_payment env tx >> later else later

-- GetTransaction, whose error is ignored, and the loop.
unfoldable pub note_payment : Env → Wallet → Text → Exec World (Unit {0})
unfolding scan_outputs
note_payment env wallet txid w = elim (wallet.get_transaction txid) [
  | none ↦ (ok tt, w)
  | some tx ↦ scan_outputs env tx w.order.payment_address (Transaction.to tx) w
]

-- The rest of processPaymentSentMessage, once the message is saved.
unfoldable pub noted_payment : Env → Text → OrderOpen → Exec World (Unit {0})
unfolding note_payment
noted_payment env txid opened = do
  p ← lift (or_panic opened.payment)
  wallet ← lift (or_external (env.wallet_for (Payment.coin p)))
  o ← gets (λ w. w.order)
  txs ← lift (or_empty (get_transactions env.codec o.transactions))
  if exists_in (λ t. str_eq (Transaction.txid t) txid) txs
      then pure tt
      else (do note_payment env wallet txid; returning (payment_sent_received o.id txid) (pure tt))

-- A duplicate ends the handler without error; any other error of PutMessage is overwritten before it
-- is tested.
abbrev pub unless_known : Result (Unit {0}) → Exec World (Unit {0}) → Exec World (Unit {0})
unless_known (ok u) k = k
unless_known (err duplicate_transaction) k = pure tt
unless_known (err e) k = k
unless_known panic k = lift panic

finish_payment_sent : Env → OrderMessage → Text → OrderOpen → Exec World (Unit {0})
unfolding noted_payment
finish_payment_sent env m txid opened w =
    let (r, o) = put_message env.codec m w.order in
    unless_known r (noted_payment env txid opened) (record w { order = o })

unfoldable pub process_payment_sent : Env → OrderMessage → Exec World (Unit {0})
unfolding finish_payment_sent
process_payment_sent env m = do
  msg ← lift (or_external (env.codec.unmarshal_any payment_sent_kind m.message))
  with_order_open env m (finish_payment_sent env m (PaymentSent.transaction_id msg))

-- One round of the loop over the signatures, with the order's item at the same place.
check_signature : Env → OrderOpen → Bytes → RatingSignature → OrderItem → Result (Unit {0})
unfolding extract_listing
check_signature env opened key sig item =
    bind_result (extract_listing env item.listing_hash opened.listings) λ found.
      bind_result (or_panic found) λ l.
        bind_result (fail_if (not (str_eq sig.slug l.slug)) incorrect_slug) λ _.
          bind_result
            (or_external (env.marshal_rating_signature (record sig { vendor_signature = [] })))
            λ ser.
              bind_result (or_external (env.verify key ser sig.vendor_signature))
                λ valid. fail_if (not valid) invalid_signature

-- The count was compared with that of the rating keys, not of the items.
unfoldable pub check_signatures :
    Env → OrderOpen → Bytes → List RatingSignature → List OrderItem → Result (Unit {0})
unfolding check_signature
check_signatures env opened key [] items = ok tt
check_signatures env opened key (sig ∷ sigs) [] = panic
check_signatures env opened key (sig ∷ sigs) (item ∷ items) =
    let rest = check_signatures env opened key sigs items in
    bind_result (check_signature env opened key sig item) λ _. rest

finish_rating_signatures : Env → OrderMessage → RatingSignatures → OrderOpen → Exec World (Unit {0})
unfolding check_signatures
finish_rating_signatures env m rs opened = do
  lift (fail_if (not (length rs.sigs == length opened.rating_keys)) wrong_signature_count)
  v ← lift (vendor_of opened)
  keys ← lift (or_panic (PbId.pubkeys v))
  key ← lift (or_external (env.unmarshal_public_key (Pubkeys.identity keys)))
  lift (check_signatures env opened key rs.sigs opened.items)
  id ← gets (λ w. w.order.id)
  returning (rating_signatures_received id) (on_order (put_message env.codec m))

unfoldable pub process_rating_signatures : Env → OrderMessage → Exec World (Unit {0})
unfolding finish_rating_signatures
process_rating_signatures env m = do
  msg ← lift (or_external (env.codec.unmarshal_any rating_signatures_kind m.message))
  o ← gets (λ w. w.order)
  dup ← lift (seen_before env.codec rating_signatures_kind msg o.rating_signatures.serialized)
  if dup then pure tt else with_order_open env m (finish_rating_signatures env m msg)
