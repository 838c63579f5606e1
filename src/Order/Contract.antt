-- ===== src/Order/Contract.antt =====
-- models/orders.go: toProtobuf, the order as the API and a moderator see it.
use openbazaar.Prelude.{ℕ, Bool, false, Option, none, some, List, [], map, ◌&&◌}
use openbazaar.Prelude.Int.{ℤ}
use openbazaar.Exec.{Result, ok, err, panic, bind_result, or_external, message_does_not_exist}
use openbazaar.Proto.Common.{Bytes, Text}
use openbazaar.Proto.Net.{OrderMessage}
use openbazaar.Proto.Orders.{
  OrderOpen, OrderReject, OrderCancel, OrderConfirmation, OrderFulfillment, OrderComplete,
  DisputeOpen, DisputeUpdate, DisputeClose, Refund, PaymentSent, PaymentFinalized, party_buyer,
  party_vendor,
}
use openbazaar.Proto.Codec.{Codec, Transaction}
use openbazaar.Order.Defs.{Order, OrderRole, Acks, is_role_buyer, is_role_vendor}
use openbazaar.Order.Read.{
  order_open_message, order_reject_message, order_cancel_message, order_confirmation_message,
  order_complete_message, dispute_open_message, dispute_closed_message, dispute_update_message,
  payment_finalized_message, order_fulfillment_messages, refund_messages, payment_sent_messages,
  get_transactions,
}
use openbazaar.Order.Status.{or_empty}

-- Contract.Transaction; the value and the time are written as texts and timestamps by the libraries
pub record ContractTransaction : Type 0 where
  pub txid : Text
  pub value : ℤ
  pub timestamp : ℕ

-- Contract
pub record Contract : Type 0 where
  pub order_id : Text
  pub role : OrderRole
  pub order_open : Option OrderOpen
  pub order_reject : Option OrderReject
  pub order_cancel : Option OrderCancel
  pub order_confirmation : Option OrderConfirmation
  pub order_complete : Option OrderComplete
  pub dispute_open : Option DisputeOpen
  pub dispute_close : Option DisputeClose
  pub dispute_update : Option DisputeUpdate
  pub payment_finalized : Option PaymentFinalized
  pub order_fulfillments : List OrderFulfillment
  pub refunds : List Refund
  pub payments_sent : List PaymentSent
  pub parked_messages : Option (List OrderMessage)
  pub errored_messages : Option (List OrderMessage)
  pub transactions : List ContractTransaction
  pub acks : Acks

-- `err != nil && !errors.Is(err, ErrMessageDoesNotExist)`: a message that is missing stays nil.
abbrev pub or_nil : {A : Type 0} → Result A → Result (Option A)
or_nil (ok a) = ok (some a)
or_nil (err message_does_not_exist) = ok none
or_nil (err e) = err e
or_nil panic = panic

-- The field that is tested for nil, and the one whose bytes are read.
abbrev json_list : Codec → Option Bytes → Option Bytes → Result (Option (List OrderMessage))
json_list c none read = ok none
json_list c (some b) none = bind_result (or_external (c.unmarshal_orders_json [])) λ l. ok (some l)
json_list c (some b) (some r) =
    bind_result (or_external (c.unmarshal_orders_json r)) λ l. ok (some l)

-- Whether the node opened the dispute itself.
abbrev opened_dispute : OrderRole → Option DisputeOpen → Bool
opened_dispute role none = false
opened_dispute role (some d) = elim d.opened_by [
  | party_buyer ↦ is_role_buyer role
  | party_vendor ↦ is_role_vendor role
]

-- The flags that are copied: not that of the rating signatures, and those of a dispute only where
-- the node opened it.
abbrev contract_acks : Acks → Bool → Acks
contract_acks a own = record a {
  rating_signatures_acked = false;
  dispute_open_other_party_acked = own && a.dispute_open_other_party_acked;
  dispute_open_moderator_acked = own && a.dispute_open_moderator_acked;
}

unfoldable pub to_protobuf : Codec → Order → Result Contract
to_protobuf c o = bind_result (or_nil (order_open_message c o)) λ opened.
    bind_result (or_nil (order_reject_message c o)) λ reject.
      bind_result (or_nil (order_cancel_message c o)) λ cancel.
        bind_result (or_nil (order_confirmation_message c o)) λ confirmation.
          bind_result (or_nil (order_complete_message c o)) λ complete.
            bind_result (or_nil (dispute_open_message c o)) λ dispute.
              bind_result (or_nil (dispute_closed_message c o)) λ close.
                bind_result (or_nil (dispute_update_message c o)) λ update.
                  bind_result (or_nil (payment_finalized_message c o)) λ finalized.
                    bind_result (or_empty (order_fulfillment_messages c o)) λ fulfillments.
                      bind_result (or_empty (refund_messages c o)) λ refunds.
                        bind_result (or_empty (payment_sent_messages c o)) λ payments.
                          bind_result (json_list c o.parked_messages o.parked_messages) λ parked.
                            bind_result (json_list c o.errored_messages o.parked_messages)
                              λ errored.
                                bind_result (or_empty (get_transactions c o.transactions)) λ txs.
                                  ok (record {
                                    order_id = o.id;
                                    role = o.my_role;
                                    order_open = opened;
                                    order_reject = reject;
                                    order_cancel = cancel;
                                    order_confirmation = confirmation;
                                    order_complete = complete;
                                    dispute_open = dispute;
                                    dispute_close = close;
                                    dispute_update = update;
                                    payment_finalized = finalized;
                                    order_fulfillments = fulfillments;
                                    refunds = refunds;
                                    payments_sent = payments;
                                    parked_messages = parked;
                                    errored_messages = errored;
                                    transactions =
                                        map
                                          (λ t. record {
                                            txid = Transaction.txid t;
                                            value = t.value;
                                            timestamp = t.timestamp;
                                          })
                                          txs;
                                    acks = contract_acks o.acks (opened_dispute o.my_role dispute);
                                  })
