-- ===== src/Processor/Payments.antt =====
-- orders/transactions.go and orders/rating_signatures.go: payments into and out of the payment
-- address of an order, and the rating signatures that a vendor sends when it is funded.
use openbazaar.Prelude.{Bool, Option, List, [], ◌∷◌, ◌++◌, str_eq, if◌then◌else◌}
use openbazaar.Exec.{
  Result, ok, err, panic, bind_result, or_external, or_panic, Exec, pure, raise, lift, gets, ◌>>=◌,
  ◌>>◌, duplicate_transaction, listing_not_found,
}
use openbazaar.Proto.Common.{Bytes, Text, SignedListing, Listing}
use openbazaar.Proto.Net
use openbazaar.Proto.Net.{MessageType, OrderMessage, NetMessage}
use openbazaar.Proto.Orders.{OrderOpen, OrderItem, Payment, RatingSignature}
use openbazaar.Proto.Codec.{Kind, Body, Transaction, payment_sent_kind, rating_signatures_kind}
use openbazaar.Order.Defs.{OrderRole, role_buyer, role_vendor}
use openbazaar.Order.Read.{order_open_message, vendor_of, buyer}
use openbazaar.Order.Put.{put_transaction, put_message}
use openbazaar.Order.Status.{is_funded, funding_total}
use openbazaar.Processor.Events.{
  sale_of, order_funded, order_payment_received, spend_from_payment_address,
}
use openbazaar.Processor.Env.{Env, World, on_order, reliably_send, register_hook}

-- utils.SignOrderMessage
unfoldable pub sign_order_message : Env → OrderMessage → Result OrderMessage
sign_order_message env m =
    bind_result (or_external (env.marshal_order_message (record m { signature = [] })))
      λ ser. bind_result (or_external (env.sign ser)) λ sig. ok (record m { signature = sig })

-- An OrderMessage of the node's own: the message is wrapped and the whole is signed.
unfoldable pub own_message : Env → Text → MessageType → (k : Kind) → Body k → Result OrderMessage
unfolding sign_order_message
own_message env id t k msg = bind_result (or_external (env.marshal_any k msg)) λ any.
    sign_order_message env
      (record { order_id = id; message_type = t; message = any; signature = [] })

-- The Message that carries it, with a random ID.
unfoldable pub carry : Env → Net.NetType → OrderMessage → Result NetMessage
carry env t m = bind_result (or_external (env.marshal_payload m)) λ payload.
    bind_result (or_external env.random_id)
      λ id. ok (record { net_type = t; message_id = id; sequence = 0; payload = payload })

-- utils.ExtractListing
unfoldable pub extract_listing : Env → Text → List SignedListing → Result (Option Listing)
extract_listing env hash [] = err listing_not_found
extract_listing env hash (sl ∷ sls) =
    let rest = extract_listing env hash sls in
    bind_result (or_external (env.hash_listing sl))
      λ h. if str_eq h hash then ok (SignedListing.listing sl) else rest

-- A call whose error is only logged. What it wrote stays written.
abbrev pub logged : Exec World (Unit {0}) → Exec World (Unit {0})
logged m w =
    let (r, t) = m w in elim r [ ok u ↦ (ok tt, t) | err e ↦ (ok tt, t) | panic ↦ (panic, t) ]

-- The signature of one item's rating key.
sign_rating : Env → Text → Bytes → Result RatingSignature
sign_rating env slug key =
    let r : RatingSignature = record { slug = slug; rating_key = key; vendor_signature = [] } in
    bind_result (or_external (env.marshal_rating_signature r)) λ ser.
      bind_result (or_external (env.sign ser)) λ sig. ok (record r { vendor_signature = sig })

-- The loop of sendRatingSignatures: the i-th item goes with the i-th rating key.
sign_ratings :
    Env → List SignedListing → List OrderItem → List Bytes → Result (List RatingSignature)
unfolding extract_listing sign_rating
sign_ratings env listings [] keys = ok []
sign_ratings env listings (item ∷ items) [] =
    bind_result (extract_listing env item.listing_hash listings) λ l. panic
sign_ratings env listings (item ∷ items) (key ∷ keys) =
    let rest = sign_ratings env listings items keys in
    bind_result (extract_listing env item.listing_hash listings) λ found.
      bind_result (or_panic found) λ l.
        bind_result (sign_rating env l.slug key) λ sig. bind_result rest λ sigs. ok (sig ∷ sigs)

unfoldable pub send_rating_signatures : Env → OrderOpen → Exec World (Unit {0})
unfolding sign_ratings own_message carry
send_rating_signatures env m = do
  sigs ← lift (sign_ratings env m.listings m.items m.rating_keys)
  id ← gets (λ w. w.order.id)
  om ← lift (
      own_message env id Net.MessageType.rating_signatures rating_signatures_kind
        (record { sigs = sigs; timestamp = env.now }))
  message ← lift (carry env Net.NetType.order om)
  to ← (λ w. (buyer env.codec env.decode w.order, w))
  reliably_send env to message
  on_order (put_message env.codec om)

-- The case of the buyer in processIncomingPayment.
unfoldable pub buyer_incoming : Env → Transaction → Bool → OrderOpen → Exec World (Unit {0})
unfolding own_message carry
buyer_incoming env tx funded m = do
  id ← gets (λ w. w.order.id)
  resp ← lift (
      own_message env id Net.MessageType.payment_sent payment_sent_kind
        (record { transaction_id = tx.txid }))
  message ← lift (carry env Net.NetType.order resp)
  to ← lift (bind_result (vendor_of m) λ v. or_external (env.decode v.peer_id))
  reliably_send env to message
  on_order (put_message env.codec resp)
  if funded
      then (do
        total ← (λ w. (funding_total env.codec w.order, w))
        p ← lift (or_panic m.payment)
        register_hook (order_payment_received id total (Payment.coin p)))
      else pure tt

-- The case of the vendor. What the hook's closure reads is read here.
unfoldable pub vendor_incoming : Env → Bool → OrderOpen → Exec World (Unit {0})
unfolding send_rating_signatures
vendor_incoming env funded m =
    if funded
    then (do
      logged (send_rating_signatures env m)
      id ← gets (λ w. w.order.id)
      sale ← lift (sale_of id m)
      register_hook (order_funded sale))
    else pure tt

-- `switch order.Role()`
unfoldable pub incoming_by_role :
    OrderRole → Env → Transaction → Bool → OrderOpen → Exec World (Unit {0})
unfolding buyer_incoming vendor_incoming
incoming_by_role role_buyer env tx funded m = buyer_incoming env tx funded m
incoming_by_role role_vendor env tx funded m = vendor_incoming env funded m
incoming_by_role _ env tx funded m = pure tt

-- PutTransaction, whose duplicate error ends the caller without error.
abbrev pub once : Result (Unit {0}) → Exec World (Unit {0}) → Exec World (Unit {0})
once (ok u) k = k
once (err duplicate_transaction) k = pure tt
once (err e) k = raise e
once panic k = lift panic

unfoldable pub process_incoming_payment : Env → Transaction → Exec World (Unit {0})
unfolding incoming_by_role
process_incoming_payment env tx w =
    let (r, o) = put_transaction env.codec tx w.order in
    once r
      (do
        funded ← (λ v. (is_funded env.codec v.order, v))
        m ← (λ v. (order_open_message env.codec v.order, v))
        incoming_by_role w.order.my_role env tx funded m)
      (record w { order = o })

-- The hook is registered unless the transaction is a duplicate, also if PutTransaction failed.
unfoldable pub process_outgoing_payment : Env → Transaction → Exec World (Unit {0})
process_outgoing_payment env tx w =
    let (r, o) = put_transaction env.codec tx w.order in
    elim r [
      | err duplicate_transaction ↦ (ok tt, record w { order = o })
      | other ↦
          (other, record w { order = o; hooks = w.hooks ++ spend_from_payment_address tx ∷ [] })
    ]
