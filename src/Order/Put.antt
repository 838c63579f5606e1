-- ===== src/Order/Put.antt =====
-- models/orders.go: PutTransaction and PutMessage.
use openbazaar.Prelude.{
  Bool, false, Option, none, some, List, [], ◌∷◌, ◌++◌, ◌==◌, ◌&&◌, not, str_eq, exists_in,
  if◌then◌else◌, bytes_eq,
}
use openbazaar.Exec.{
  Result, ok, err, panic, bind_result, or_external, fail_if, Exec, duplicate_transaction, external,
}
use openbazaar.Proto.Common.{Bytes, Text}
use openbazaar.Proto.Net.{
  MessageType, OrderMessage, order_open, order_reject, order_cancel, order_confirmation,
  rating_signatures, order_fulfillment, order_complete, dispute_open, dispute_update, dispute_close,
  refund, payment_sent, payment_finalized, other_type,
}
use openbazaar.Proto.Orders.{
  OrderFulfillment, FulfilledItem, RefundInfo, by_transaction, by_release, EscrowRelease, Refund,
  PaymentSent, Signed,
}
use openbazaar.Proto.Codec.{
  Codec, Kind, Transaction, open_kind, reject_kind, cancel_kind, confirmation_kind,
  rating_signatures_kind, complete_kind, dispute_open_kind, dispute_update_kind, dispute_close_kind,
  payment_finalized_kind, fulfillment_kind, refund_kind, payment_sent_kind, fulfillment_list_kind,
  refund_list_kind, payment_sent_list_kind,
}
use openbazaar.Order.Defs.{Order, Slot}

-- What a field holds when it is not nil; nil reads as the empty value, with no test of the length.
abbrev pub read_or : {A : Type 0} → A → (Bytes → Option A) → Option Bytes → Result A
read_or a read none = ok a
read_or a read (some b) = or_external (read b)

-- The new contents of a field go to the order, or the error to the caller.
abbrev pub store : Result Bytes → (Bytes → Order → Order) → Exec Order (Unit {0})
store (ok b) write o = (ok tt, write b o)
store (err e) write o = (err e, o)
store panic write o = (panic, o)

unfoldable pub put_transaction : Codec → Transaction → Exec Order (Unit {0})
put_transaction c tx o =
    store
      (bind_result (read_or [] c.unmarshal_transactions o.transactions) λ txs.
        bind_result (fail_if (exists_in (λ t. str_eq t.txid tx.txid) txs) duplicate_transaction)
          λ _. or_external (c.marshal_transactions (txs ++ tx ∷ [])))
      (λ b r. record r { transactions = some b }) o

-- The tail of PutMessage: the messages that an order keeps one of.
unfoldable pub put_single :
    Codec → (k : Kind) → (Bytes → Order → Order) → OrderMessage → Exec Order (Unit {0})
put_single c k set_message m =
    store
      (bind_result (or_external (c.unmarshal_any k m.message))
        λ msg. or_external (c.marshal_json k msg))
      set_message

-- Two fulfillments that share an item.
unfoldable pub same_item : OrderFulfillment → OrderFulfillment → Bool
same_item f g =
    exists_in
      (λ item.
        exists_in (λ other. FulfilledItem.item_index item == FulfilledItem.item_index other)
          g.fulfillments)
      f.fulfillments

unfoldable pub put_fulfillment : Codec → OrderMessage → Option Bytes → Result Bytes
put_fulfillment c m field =
    bind_result (or_external (c.unmarshal_any fulfillment_kind m.message)) λ msg.
      bind_result (read_or [] (c.unmarshal_json fulfillment_list_kind) field) λ l.
        bind_result
          (fail_if (exists_in (λ f. same_item (Signed.message f) msg) l) duplicate_transaction)
          λ _. or_external (
            c.marshal_json fulfillment_list_kind
              (l ++ record { message = msg; signature = m.signature } ∷ []))

-- GetTransactionID and GetReleaseInfo
abbrev pub refund_transaction_id : RefundInfo → Text
refund_transaction_id (by_transaction t) = t
refund_transaction_id _ = ""

abbrev pub refund_release_info : RefundInfo → Option EscrowRelease
refund_release_info (by_release r) = some r
refund_release_info _ = none

-- The comparison of two release infos by what they marshal to.
unfoldable pub same_release : Codec → Option EscrowRelease → Option EscrowRelease → Result Bool
same_release c none s = ok false
same_release c (some r) none = ok false
same_release c (some r) (some s) =
    bind_result (or_external (c.marshal_release r))
      λ out1. bind_result (or_external (c.marshal_release s)) λ out2. ok (bytes_eq out1 out2)

-- The loop over the refunds that are saved.
unfoldable pub check_refunds : Codec → Refund → List (Signed Refund) → Result (Unit {0})
unfolding same_release
check_refunds c new [] = ok tt
check_refunds c new (r ∷ rs) =
    let rest = check_refunds c new rs in
    let old_id : Text = refund_transaction_id (Signed.message r).refund_info in
    if not (str_eq old_id "") && str_eq old_id (refund_transaction_id new.refund_info)
    then err duplicate_transaction
    else bind_result
        (same_release c (refund_release_info (Signed.message r).refund_info)
          (refund_release_info new.refund_info))
        λ same. if same then err duplicate_transaction else rest

unfoldable pub put_refund : Codec → OrderMessage → Option Bytes → Result Bytes
unfolding check_refunds
put_refund c m field = bind_result (or_external (c.unmarshal_any refund_kind m.message)) λ msg.
    bind_result (read_or [] (c.unmarshal_json refund_list_kind) field) λ l.
      bind_result (check_refunds c msg l) λ _. or_external (
        c.marshal_json refund_list_kind
          (l ++ record { message = msg; signature = m.signature } ∷ []))

unfoldable pub put_payment_sent : Codec → OrderMessage → Option Bytes → Result Bytes
put_payment_sent c m field =
    bind_result (or_external (c.unmarshal_any payment_sent_kind m.message)) λ msg.
      bind_result (read_or [] (c.unmarshal_json payment_sent_list_kind) field) λ l.
        bind_result
          (fail_if
            (exists_in
              (λ p. str_eq (PaymentSent.transaction_id (Signed.message p)) msg.transaction_id) l)
            duplicate_transaction)
          λ _. or_external (
            c.marshal_json payment_sent_list_kind
              (l ++ record { message = msg; signature = m.signature } ∷ []))

abbrev pub with_signature : Text → Slot → Slot
with_signature sig s = record s { signature = sig }

abbrev pub with_serialized : Bytes → Slot → Slot
with_serialized b s = record s { serialized = some b }

-- The switch of PutMessage. The signature is written before the message is unmarshalled. For an
-- unknown type there is no message to unmarshal into, which the library refuses.
unfoldable pub put_by_type : MessageType → Codec → OrderMessage → Exec Order (Unit {0})
unfolding put_single put_fulfillment put_refund put_payment_sent
put_by_type order_open c m o =
    put_single c open_kind (λ b r. record r { order_open = with_serialized b r.order_open }) m
      (record o { order_open = with_signature (c.base64 m.signature) o.order_open })
put_by_type order_reject c m o =
    put_single c reject_kind (λ b r. record r { order_reject = with_serialized b r.order_reject }) m
      (record o { order_reject = with_signature (c.base64 m.signature) o.order_reject })
put_by_type order_cancel c m o =
    put_single c cancel_kind (λ b r. record r { order_cancel = with_serialized b r.order_cancel }) m
      (record o { order_cancel = with_signature (c.base64 m.signature) o.order_cancel })
put_by_type order_confirmation c m o =
    put_single c confirmation_kind
      (λ b r. record r { order_confirmation = with_serialized b r.order_confirmation }) m
      (record o { order_confirmation = with_signature (c.base64 m.signature) o.order_confirmation })
put_by_type rating_signatures c m o =
    put_single c rating_signatures_kind
      (λ b r. record r { rating_signatures = with_serialized b r.rating_signatures }) m
      (record o { rating_signatures = with_signature (c.base64 m.signature) o.rating_signatures })
put_by_type order_complete c m o =
    put_single c complete_kind
      (λ b r. record r { order_complete = with_serialized b r.order_complete }) m
      (record o { order_complete = with_signature (c.base64 m.signature) o.order_complete })
put_by_type dispute_open c m o =
    put_single c dispute_open_kind
      (λ b r. record r { dispute_open = with_serialized b r.dispute_open }) m
      (record o { dispute_open = with_signature (c.base64 m.signature) o.dispute_open })
put_by_type dispute_update c m o =
    put_single c dispute_update_kind
      (λ b r. record r { dispute_update = with_serialized b r.dispute_update }) m
      (record o { dispute_update = with_signature (c.base64 m.signature) o.dispute_update })
put_by_type dispute_close c m o =
    put_single c dispute_close_kind
      (λ b r. record r { dispute_closed = with_serialized b r.dispute_closed }) m
      (record o { dispute_closed = with_signature (c.base64 m.signature) o.dispute_closed })
put_by_type order_fulfillment c m o =
    store (put_fulfillment c m o.order_fulfillments)
      (λ b r. record r { order_fulfillments = some b }) o
put_by_type refund c m o = store (put_refund c m o.refunds) (λ b r. record r { refunds = some b }) o
put_by_type payment_sent c m o =
    store (put_payment_sent c m o.payment_sent) (λ b r. record r { payment_sent = some b }) o
put_by_type payment_finalized c m o =
    put_single c payment_finalized_kind
      (λ b r. record r { payment_finalized = with_serialized b r.payment_finalized }) m
      (record o { payment_finalized = with_signature (c.base64 m.signature) o.payment_finalized })
put_by_type (other_type n) c m o = (err external, o)

unfoldable pub put_message : Codec → OrderMessage → Exec Order (Unit {0})
unfolding put_by_type
put_message c m = put_by_type m.message_type c m
