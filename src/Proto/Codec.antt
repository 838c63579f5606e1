-- ===== src/Proto/Codec.antt =====
-- The serializers that the order code calls: jsonpb, ptypes, proto and encoding/json. They are
-- parameters. `Kind` names the message types of orders/pb that jsonpb writes and reads.
use openbazaar.Prelude.{◌≡◌, ◌≢◌, Option, some, List, [], ℕ}
use openbazaar.Prelude.Int.{ℤ}
use openbazaar.Proto.Common.{Bytes, Text}
use openbazaar.Proto.Net.{OrderMessage}
use openbazaar.Proto.Orders.{
  OrderOpen, OrderReject, OrderCancel, OrderConfirmation, RatingSignatures, OrderFulfillment,
  OrderComplete, DisputeOpen, DisputeUpdate, DisputeClose, Refund, PaymentSent, PaymentFinalized,
  EscrowRelease, Signed,
}

pub data Kind : Type 0 where
  open_kind reject_kind cancel_kind confirmation_kind rating_signatures_kind : Kind
  complete_kind dispute_open_kind dispute_update_kind dispute_close_kind : Kind
  fulfillment_kind refund_kind payment_sent_kind payment_finalized_kind : Kind
  fulfillment_list_kind refund_list_kind payment_sent_list_kind : Kind

-- The Go type of each kind; a list message is its repeated field.
abbrev pub Body : Kind → Type 0
Body open_kind = OrderOpen
Body reject_kind = OrderReject
Body cancel_kind = OrderCancel
Body confirmation_kind = OrderConfirmation
Body rating_signatures_kind = RatingSignatures
Body complete_kind = OrderComplete
Body dispute_open_kind = DisputeOpen
Body dispute_update_kind = DisputeUpdate
Body dispute_close_kind = DisputeClose
Body fulfillment_kind = OrderFulfillment
Body refund_kind = Refund
Body payment_sent_kind = PaymentSent
Body payment_finalized_kind = PaymentFinalized
Body fulfillment_list_kind = List (Signed OrderFulfillment)
Body refund_list_kind = List (Signed Refund)
Body payment_sent_list_kind = List (Signed PaymentSent)

-- iwallet.SpendInfo
pub record SpendInfo : Type 0 where
  pub id : Bytes
  pub address : Text
  pub amount : ℤ

-- iwallet.Transaction
pub record Transaction : Type 0 where
  pub txid : Text
  pub from : List SpendInfo
  pub to : List SpendInfo
  pub value : ℤ
  pub timestamp : ℕ

-- `none` is an error of the library.
pub record Codec : Type 0 where
  -- ptypes.UnmarshalAny into a message of the kind
  pub unmarshal_any : (k : Kind) → Bytes → Option (Body k)
  -- jsonpb.Marshaler with EmitDefaults and Indent
  pub marshal_json : (k : Kind) → Body k → Option Bytes
  -- jsonpb.UnmarshalString
  pub unmarshal_json : (k : Kind) → Bytes → Option (Body k)
  -- jsonpb.Marshaler on the release info of a refund
  pub marshal_release : EscrowRelease → Option Bytes
  -- proto.Marshal and proto.Unmarshal of an OrderList
  pub marshal_orders : List OrderMessage → Option Bytes
  pub unmarshal_orders : Bytes → Option (List OrderMessage)
  -- json.Unmarshal into an OrderList
  pub unmarshal_orders_json : Bytes → Option (List OrderMessage)
  -- json.MarshalIndent and json.Unmarshal of []iwallet.Transaction
  pub marshal_transactions : List Transaction → Option Bytes
  pub unmarshal_transactions : Bytes → Option (List Transaction)
  -- base64.StdEncoding.EncodeToString
  pub base64 : Bytes → Text
  -- iwallet.NewAmount of a decimal text
  pub new_amount : Text → ℤ

-- What the serializers document: what was written can be read back, a JSON document is not empty,
-- and the empty wire form is that of the empty list alone.
pub record IsLawful (c : Codec) : Type 0 where
  pub json_round :
      (k : Kind) (m : Body k) (b : Bytes)
      → c.marshal_json k m ≡ some b
      → c.unmarshal_json k b ≡ some m
  pub json_nonempty : (k : Kind) (m : Body k) → c.marshal_json k m ≢ some []
  pub orders_round :
      (l : List OrderMessage) (b : Bytes)
      → c.marshal_orders l ≡ some b
      → c.unmarshal_orders b ≡ some l
  pub orders_nil : c.unmarshal_orders [] ≡ some []
  pub orders_empty : (l : List OrderMessage) → c.marshal_orders l ≡ some [] → l ≡ []
  pub transactions_round :
      (l : List Transaction) (b : Bytes)
      → c.marshal_transactions l ≡ some b
      → c.unmarshal_transactions b ≡ some l
  pub transactions_nonempty : (l : List Transaction) → c.marshal_transactions l ≢ some []
