-- ===== src/Proto/Orders.antt =====
-- orders/pb/orders.proto: the order messages and the lists that the order model keeps.
use openbazaar.Prelude.{ℕ, Option, List}
use openbazaar.Proto.Common.{Bytes, Text, PbId, SignedListing}

-- OrderOpen.Payment.Method; the enum of proto3 is open, and keeps a number that it has no name for.
pub data Method : Type 0 where
  direct cancelable moderated : Method
  other_method : ℕ → Method

-- OrderOpen.Payment
pub record Payment : Type 0 where
  pub method : Method
  pub moderator : Text
  pub amount : Text
  pub chaincode : Text
  pub address : Text
  pub script : Text
  pub moderator_key : Bytes
  pub coin : Text
  pub escrow_release_fee : Text

-- OrderOpen.Item
pub record OrderItem : Type 0 where
  pub listing_hash : Text
  pub quantity : Text
  pub others : Bytes

pub record OrderOpen : Type 0 where
  pub listings : List SignedListing
  pub refund_address : Text
  pub buyer_id : Option PbId
  pub timestamp : Option ℕ
  pub items : List OrderItem
  pub payment : Option Payment
  pub rating_keys : List Bytes
  pub others : Bytes

-- OrderReject.RejectType
pub data RejectType : Type 0 where
  user_reject reject_validation_error : RejectType

pub record OrderReject : Type 0 where
  pub reject_type : RejectType
  pub reason : Text
  pub timestamp : ℕ

pub record OrderConfirmation : Type 0 where
  pub transaction_id : Text
  pub timestamp : ℕ

pub record OrderCancel : Type 0 where
  pub transaction_id : Text
  pub timestamp : ℕ

pub record RatingSignature : Type 0 where
  pub slug : Text
  pub rating_key : Bytes
  pub vendor_signature : Bytes

pub record RatingSignatures : Type 0 where
  pub sigs : List RatingSignature
  pub timestamp : ℕ

-- Signature
pub record EscrowSig : Type 0 where
  pub from : Bytes
  pub signature : Bytes
  pub index : ℕ

pub record EscrowRelease : Type 0 where
  pub escrow_signatures : List EscrowSig
  pub from_ids : List Bytes
  pub to_address : Text
  pub to_amount : Text
  pub transaction_fee : Text

-- OrderFulfillment.FulfilledItem; `item_index` is a uint32
pub record FulfilledItem : Type 0 where
  pub item_index : ℕ
  pub others : Bytes

pub record OrderFulfillment : Type 0 where
  pub fulfillments : List FulfilledItem
  pub release_info : Option EscrowRelease
  pub timestamp : ℕ

-- Rating, as the serialized message that the processor hands on
pub record Rating : Type 0 where
  pub content : Bytes

pub record OrderComplete : Type 0 where
  pub ratings : List Rating
  pub release_info : Option EscrowRelease
  pub timestamp : ℕ

-- DisputeOpen.Party
pub data Party : Type 0 where
  party_buyer party_vendor : Party

pub record DisputeOpen : Type 0 where
  pub opened_by : Party
  pub reason : Text
  pub timestamp : ℕ
  pub contract : Bytes

pub record DisputeUpdate : Type 0 where
  pub timestamp : ℕ
  pub contract : Bytes

pub record DisputeClose : Type 0 where
  pub verdict : Text
  pub others : Bytes

-- Refund; the oneof `refundInfo` is read through its getters
pub data RefundInfo : Type 0 where
  no_info : RefundInfo
  by_transaction : Text → RefundInfo
  by_release : EscrowRelease → RefundInfo

pub record Refund : Type 0 where
  pub refund_info : RefundInfo
  pub amount : Text
  pub timestamp : ℕ

pub record PaymentSent : Type 0 where
  pub transaction_id : Text

pub record PaymentFinalized : Type 0 where
  pub others : Bytes

-- FulfillmentList.Message, RefundList.Message, PaymentSentList.Message
pub record Signed (A : Type 0) : Type 0 where
  pub message : A
  pub signature : Bytes
