-- ===== src/Order/Read.antt =====
-- models/orders.go: the getters that unmarshal what the order keeps, and the parties of an order.
use openbazaar.Prelude.{ℕ, Option, none, some, List, [], ◌∷◌, map, head?, if◌then◌else◌, str_eq}
use openbazaar.Exec.{
  Result, ok, err, bind_result, or_external, or_panic, message_does_not_exist, no_moderator,
}
use openbazaar.Proto.Common.{Bytes, Text, PbId}
use openbazaar.Proto.Net.{OrderMessage}
use openbazaar.Proto.Orders.{
  OrderOpen, OrderReject, OrderCancel, OrderConfirmation, RatingSignatures, OrderFulfillment,
  OrderComplete, DisputeOpen, DisputeUpdate, DisputeClose, Refund, PaymentSent, PaymentFinalized,
  Signed,
}
use openbazaar.Proto.Codec.{
  Codec, Kind, Body, Transaction, open_kind, reject_kind, cancel_kind, confirmation_kind,
  rating_signatures_kind, complete_kind, dispute_open_kind, dispute_update_kind, dispute_close_kind,
  payment_finalized_kind, fulfillment_list_kind, refund_list_kind, payment_sent_list_kind,
}
use openbazaar.Order.Defs.{Order}

-- The body that the getters share: nil and empty bytes count as no message.
unfoldable pub read_message : Codec → (k : Kind) → Option Bytes → Result (Body k)
read_message c k none = err message_does_not_exist
read_message c k (some []) = err message_does_not_exist
read_message c k (some (b ∷ bs)) = or_external (c.unmarshal_json k (b ∷ bs))

module _ (c : Codec) (o : Order) where
  unfoldable pub order_open_message : Result OrderOpen
  order_open_message = read_message c open_kind o.order_open.serialized

  unfoldable pub order_reject_message : Result OrderReject
  order_reject_message = read_message c reject_kind o.order_reject.serialized

  unfoldable pub order_cancel_message : Result OrderCancel
  order_cancel_message = read_message c cancel_kind o.order_cancel.serialized

  unfoldable pub order_confirmation_message : Result OrderConfirmation
  order_confirmation_message = read_message c confirmation_kind o.order_confirmation.serialized

  unfoldable pub rating_signatures_message : Result RatingSignatures
  rating_signatures_message = read_message c rating_signatures_kind o.rating_signatures.serialized

  unfoldable pub order_complete_message : Result OrderComplete
  order_complete_message = read_message c complete_kind o.order_complete.serialized

  unfoldable pub dispute_open_message : Result DisputeOpen
  dispute_open_message = read_message c dispute_open_kind o.dispute_open.serialized

  unfoldable pub dispute_update_message : Result DisputeUpdate
  dispute_update_message = read_message c dispute_update_kind o.dispute_update.serialized

  unfoldable pub dispute_closed_message : Result DisputeClose
  dispute_closed_message = read_message c dispute_close_kind o.dispute_closed.serialized

  unfoldable pub payment_finalized_message : Result PaymentFinalized
  payment_finalized_message = read_message c payment_finalized_kind o.payment_finalized.serialized

  -- The loops copy the wrapped message of each entry.
  unfoldable pub order_fulfillment_messages : Result (List OrderFulfillment)
  order_fulfillment_messages =
      bind_result (read_message c fulfillment_list_kind o.order_fulfillments)
        λ l. ok (map (λ m. Signed.message m) l)

  unfoldable pub refund_messages : Result (List Refund)
  refund_messages =
      bind_result (read_message c refund_list_kind o.refunds)
        λ l. ok (map (λ m. Signed.message m) l)

  unfoldable pub payment_sent_messages : Result (List PaymentSent)
  payment_sent_messages =
      bind_result (read_message c payment_sent_list_kind o.payment_sent)
        λ l. ok (map (λ m. Signed.message m) l)

unfoldable pub get_transactions : Codec → Option Bytes → Result (List Transaction)
get_transactions c none = err message_does_not_exist
get_transactions c (some []) = err message_does_not_exist
get_transactions c (some (b ∷ bs)) = or_external (c.unmarshal_transactions (b ∷ bs))

-- GetParkedMessages and GetErroredMessages: nil and empty bytes count as an empty list.
unfoldable pub get_order_list : Codec → Option Bytes → Result (List OrderMessage)
get_order_list c none = ok []
get_order_list c (some []) = ok []
get_order_list c (some (b ∷ bs)) = or_external (c.unmarshal_orders (b ∷ bs))

unfoldable pub get_parked_messages : Codec → Order → Result (List OrderMessage)
get_parked_messages c o = get_order_list c o.parked_messages

unfoldable pub get_errored_messages : Codec → Order → Result (List OrderMessage)
get_errored_messages c o = get_order_list c o.errored_messages

-- `orderOpen.Listings[0].Listing.VendorID`
unfoldable pub vendor_of : OrderOpen → Result PbId
vendor_of m =
    bind_result (or_panic (head? m.listings))
      λ sl. bind_result (or_panic sl.listing) λ l. or_panic l.vendor_id

-- The parties; `decode` is peer.Decode.
module _ (c : Codec) (decode : Text → Option Text) (o : Order) where
  unfoldable pub buyer : Result Text
  buyer =
      bind_result (order_open_message c o)
        λ m. bind_result (or_panic m.buyer_id) λ b. or_external (decode b.peer_id)

  unfoldable pub vendor : Result Text
  vendor =
      bind_result (order_open_message c o)
        λ m. bind_result (vendor_of m) λ v. or_external (decode v.peer_id)

  unfoldable pub moderator : Result Text
  moderator = bind_result (order_open_message c o) λ m.
      bind_result (or_panic m.payment)
        λ p. if str_eq p.moderator "" then err no_moderator else or_external (decode p.moderator)

-- Timestamp; ptypes.Timestamp refuses nil.
unfoldable pub timestamp : Codec → Order → Result ℕ
timestamp c o = bind_result (order_open_message c o) λ m. or_external m.timestamp
