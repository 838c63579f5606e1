-- ===== src/Processor/Events.antt =====
-- events/orders.go and events/wallet.go: what the order processor emits or returns. The embedded
-- Notification is filled in by the notifier and is left out.
use openbazaar.Prelude.{ℕ, head?}
use openbazaar.Prelude.Int.{ℤ}
use openbazaar.Exec.{Result, ok, bind_result, or_panic}
use openbazaar.Proto.Common.{Text, PbId, Metadata, ContractType, Image, Listing, ListingItem}
use openbazaar.Proto.Orders.{OrderOpen, Payment}
use openbazaar.Proto.Codec.{Transaction}

pub record Thumbnail : Type 0 where
  pub tiny : Text
  pub small : Text

-- OrderDeclined, OrderCancel, OrderConfirmation, OrderFulfillment, OrderCompletion and Refund: the
-- order, its picture, and the other party.
pub record Notice : Type 0 where
  pub order_id : Text
  pub thumbnail : Thumbnail
  pub handle : Text
  pub peer_id : Text

pub record ListingPrice : Type 0 where
  pub amount : Text
  pub currency_code : Text
  pub price_modifier : ℕ

-- NewOrder and OrderFunded
pub record Sale : Type 0 where
  pub buyer_handle : Text
  pub buyer_id : Text
  pub listing_type : ContractType
  pub order_id : Text
  pub price : ListingPrice
  pub slug : Text
  pub thumbnail : Thumbnail
  pub title : Text

-- DisputeOpen
pub record Dispute : Type 0 where
  pub order_id : Text
  pub thumbnail : Thumbnail
  pub disputer_id : Text
  pub disputer_handle : Text
  pub disputee_id : Text
  pub disputee_handle : Text

pub data Event : Type 0 where
  new_order order_funded : Sale → Event
  declined canceled confirmed fulfilled completed refunded : Notice → Event
  payment_sent_received : Text → Text → Event
  rating_signatures_received : Text → Event
  disputed : Dispute → Event
  order_payment_received : Text → ℤ → Text → Event
  spend_from_payment_address : Transaction → Event

-- `orderOpen.Listings[0].Listing`
unfoldable pub first_listing : OrderOpen → Result Listing
first_listing m = bind_result (or_panic (head? m.listings)) λ sl. or_panic sl.listing

unfoldable pub first_item : OrderOpen → Result ListingItem
unfolding first_listing
first_item m = bind_result (first_listing m) λ l. or_panic l.item

-- `events.Thumbnail{…Images[0].Tiny, …Images[0].Small}`
unfoldable pub thumbnail_of : OrderOpen → Result Thumbnail
unfolding first_item
thumbnail_of m = bind_result (first_item m) λ item.
    bind_result (or_panic (head? item.images))
      λ image. ok (record { tiny = Image.tiny image; small = Image.small image })

-- The notice that names the vendor, and the one that names the buyer.
unfoldable pub notice_of : Text → OrderOpen → Result PbId → Result Notice
unfolding thumbnail_of
notice_of id m party = bind_result (thumbnail_of m) λ t.
    bind_result party
      λ p. ok (record { order_id = id; thumbnail = t; handle = p.handle; peer_id = p.peer_id })

unfoldable pub sale_of : Text → OrderOpen → Result Sale
unfolding thumbnail_of first_item first_listing
sale_of id m = bind_result (or_panic m.buyer_id) λ buyer. bind_result (first_listing m) λ l.
    bind_result (or_panic l.metadata) λ meta. bind_result (or_panic m.payment) λ p.
      bind_result (first_item m) λ item. bind_result (thumbnail_of m) λ t. ok (record {
        buyer_handle = PbId.handle buyer;
        buyer_id = PbId.peer_id buyer;
        listing_type = Metadata.contract_type meta;
        order_id = id;
        price = record {
          amount = Payment.amount p;
          currency_code = Payment.coin p;
          price_modifier = item.crypto_listing_price_modifier;
        };
        slug = l.slug;
        thumbnail = t;
        title = item.title;
      })
