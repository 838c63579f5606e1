-- ===== src/Examples/Toy.antt =====
-- A codec that writes a few documents only, and reads them back.
use openbazaar.Prelude.{
  Option, none, some, List, [], ◌∷◌, ◌≡◌, ◌≢◌, refl, sym, ap, ◌∙◌, Bool, true, false, ℕ_discrete,
  str_eq, eq_iff, false≢true,
}
use openbazaar.Prelude.Int.{pos}
use openbazaar.Proto.Common.{Bytes, Text, PbId, Listing}
use openbazaar.Proto.Net.{OrderMessage, order_cancel, order_reject, order_fulfillment}
use openbazaar.Proto.Orders.{
  OrderOpen, Payment, direct, OrderReject, OrderCancel, OrderFulfillment, Signed, user_reject,
}
use openbazaar.Proto.Codec.{
  Codec, IsLawful, Kind, Body, Transaction, open_kind, reject_kind, cancel_kind, fulfillment_kind,
  fulfillment_list_kind,
}

unfoldable pub text_discrete : Discrete Text
text_discrete s t = text_of (str_eq s t) refl
  where
    text_of : (b : Bool) → str_eq s t ≡ b → Dec (s ≡ t)
    text_of true e = yes ((eq_iff s t).0 e)
    text_of false e = no λ h. false≢true (sym e ∙ (eq_iff s t).1 h)

unfoldable orders_discrete : Discrete (List OrderMessage)
unfolding text_discrete ℕ_discrete
orders_discrete = hlevel (ℕ_discrete, text_discrete)

unfoldable transactions_discrete : Discrete (List Transaction)
unfolding text_discrete ℕ_discrete
transactions_discrete = hlevel (ℕ_discrete, text_discrete)

unfoldable cancels_discrete : Discrete OrderCancel
unfolding text_discrete ℕ_discrete
cancels_discrete = hlevel (ℕ_discrete, text_discrete)

unfoldable rejects_discrete : Discrete OrderReject
unfolding text_discrete ℕ_discrete
rejects_discrete = hlevel (ℕ_discrete, text_discrete)

unfoldable fulfillments_discrete : Discrete (List (Signed OrderFulfillment))
unfolding text_discrete ℕ_discrete
fulfillments_discrete = hlevel (ℕ_discrete, text_discrete)

-- The one document that is written, for the one value that is.
unfoldable pub write_one : {A : Type 0} → Discrete A → A → Bytes → A → Option Bytes
write_one same a doc x = elim (same x a) [ yes e ↦ some doc | no e ↦ none ]

pub write_one_lem :
    {A : Type 0} (same : Discrete A) (a x : A) (doc b : Bytes)
    → write_one same a doc x ≡ some b
    → (x ≡ a) × (doc ≡ b)
unfolding write_one
write_one_lem same a x doc b h =
    elim (same x a)
        as (λ d. elim d [ yes e ↦ some doc | no e ↦ none ] ≡ some b → (x ≡ a) × (doc ≡ b)) [
          | yes e ↦ λ h'. (e, cc h')
          | no e ↦ λ h'. cc h'
        ]
      h

abbrev pub cancel : OrderCancel
cancel = record { transaction_id = ""; timestamp = 7 }

abbrev pub reject : OrderReject
reject = record { reject_type = user_reject; reason = "late"; timestamp = 8 }

-- The first item is fulfilled.
abbrev pub shipped : OrderFulfillment
shipped = record {
  fulfillments = record { item_index = 0; others = [] } ∷ [];
  release_info = none;
  timestamp = 9;
}

abbrev pub seller : PbId
seller = record { peer_id = "seller"; handle = "s"; pubkeys = none; sig = [] }

abbrev pub listing : Listing
listing = record {
  slug = "mug";
  vendor_id = some seller;
  metadata = none;
  item = some (record {
    title = "Mug";
    images = record { tiny = "t"; small = "s"; others = [] } ∷ [];
    crypto_listing_price_modifier = 0;
    others = [];
  });
  others = [];
}

abbrev pub payment : Payment
payment = record {
  method = direct;
  moderator = "";
  amount = "5";
  chaincode = "";
  address = "addr";
  script = "";
  moderator_key = [];
  coin = "BTC";
  escrow_release_fee = "";
}

abbrev pub opened : OrderOpen
opened = record {
  listings = record { listing = some listing; others = [] } ∷ [];
  refund_address = "back";
  buyer_id = some (record { peer_id = "buyer"; handle = "b"; pubkeys = none; sig = [] });
  timestamp = some 1;
  items = record { listing_hash = "h"; quantity = "1"; others = [] } ∷ [];
  payment = some payment;
  rating_keys = [];
  others = [];
}

abbrev pub bought : Transaction
bought = record {
  txid = "tx";
  from = [];
  to = record { id = []; address = "addr"; amount = pos 6 } ∷ [];
  value = pos 6;
  timestamp = 2;
}

-- Each body is the byte that names it.
abbrev pub cancel_message : OrderMessage
cancel_message = record {
  order_id = "order";
  message_type = order_cancel;
  message = 2 ∷ [];
  signature = [];
}

abbrev pub reject_message : OrderMessage
reject_message = record {
  order_id = "order";
  message_type = order_reject;
  message = 3 ∷ [];
  signature = [];
}

abbrev pub shipped_message : OrderMessage
shipped_message = record {
  order_id = "order";
  message_type = order_fulfillment;
  message = 4 ∷ [];
  signature = [];
}

abbrev pub shipped_list : List (Signed OrderFulfillment)
shipped_list = record { message = shipped; signature = [] } ∷ []

unfoldable pub any_body : (k : Kind) → Bytes → Option (Body k)
any_body cancel_kind b = some cancel
any_body reject_kind b = some reject
any_body fulfillment_kind b = some shipped
any_body _ b = none

unfoldable pub write_json : (k : Kind) → Body k → Option Bytes
unfolding write_one cancels_discrete rejects_discrete fulfillments_discrete
write_json cancel_kind m = write_one cancels_discrete cancel (2 ∷ []) m
write_json reject_kind m = write_one rejects_discrete reject (3 ∷ []) m
write_json fulfillment_list_kind m = write_one fulfillments_discrete shipped_list (4 ∷ []) m
write_json _ m = none

unfoldable pub read_json : (k : Kind) → Bytes → Option (Body k)
read_json open_kind b = some opened
read_json cancel_kind b = some cancel
read_json reject_kind b = some reject
read_json fulfillment_list_kind b = some shipped_list
read_json _ b = none

unfoldable pub write_orders : List OrderMessage → Option Bytes
unfolding write_one orders_discrete
write_orders [] = some []
write_orders (m ∷ ms) = write_one orders_discrete (cancel_message ∷ []) (1 ∷ []) (m ∷ ms)

unfoldable pub read_orders : Bytes → Option (List OrderMessage)
read_orders [] = some []
read_orders (x ∷ xs) = some (cancel_message ∷ [])

unfoldable pub write_transactions : List Transaction → Option Bytes
unfolding write_one transactions_discrete
write_transactions l = write_one transactions_discrete (bought ∷ []) (5 ∷ []) l

abbrev pub toy : Codec
toy = record {
  unmarshal_any = any_body;
  marshal_json = write_json;
  unmarshal_json = read_json;
  marshal_release = λ r. none;
  marshal_orders = write_orders;
  unmarshal_orders = read_orders;
  unmarshal_orders_json = λ b. none;
  marshal_transactions = write_transactions;
  unmarshal_transactions = λ b. some (bought ∷ []);
  base64 = λ b. "";
  new_amount = λ t. pos 5;
}

json_round : (k : Kind) (m : Body k) (b : Bytes) → write_json k m ≡ some b → read_json k b ≡ some m
unfolding write_json read_json write_one
json_round cancel_kind m b h =
    ap some (sym (write_one_lem cancels_discrete cancel m (2 ∷ []) b h).0)
json_round reject_kind m b h =
    ap some (sym (write_one_lem rejects_discrete reject m (3 ∷ []) b h).0)
json_round fulfillment_list_kind m b h =
    ap some (sym (write_one_lem fulfillments_discrete shipped_list m (4 ∷ []) b h).0)
json_round _ m b h = cc h

json_nonempty : (k : Kind) (m : Body k) → write_json k m ≢ some []
unfolding write_json write_one
json_nonempty cancel_kind m h = cc (write_one_lem cancels_discrete cancel m (2 ∷ []) [] h).1
json_nonempty reject_kind m h = cc (write_one_lem rejects_discrete reject m (3 ∷ []) [] h).1
json_nonempty fulfillment_list_kind m h =
    cc (write_one_lem fulfillments_discrete shipped_list m (4 ∷ []) [] h).1
json_nonempty _ m h = cc h

orders_round :
    (l : List OrderMessage) (b : Bytes) → write_orders l ≡ some b → read_orders b ≡ some l
unfolding write_orders read_orders
orders_round [] [] h = refl
orders_round [] (x ∷ xs) h = cc h
orders_round (m ∷ ms) [] h =
    cc (write_one_lem orders_discrete (cancel_message ∷ []) (m ∷ ms) (1 ∷ []) [] h).1
orders_round (m ∷ ms) (x ∷ xs) h =
    ap some
      (sym (write_one_lem orders_discrete (cancel_message ∷ []) (m ∷ ms) (1 ∷ []) (x ∷ xs) h).0)

orders_empty : (l : List OrderMessage) → write_orders l ≡ some [] → l ≡ []
unfolding write_orders
orders_empty [] h = refl
orders_empty (m ∷ ms) h =
    cc (write_one_lem orders_discrete (cancel_message ∷ []) (m ∷ ms) (1 ∷ []) [] h).1

pub toy-IsLawful : IsLawful toy
unfolding read_orders write_transactions write_one
toy-IsLawful = record {
  json_round = json_round;
  json_nonempty = json_nonempty;
  orders_round = orders_round;
  orders_nil = refl;
  orders_empty = orders_empty;
  transactions_round =
      λ l b h. ap some (sym (write_one_lem transactions_discrete (bought ∷ []) l (5 ∷ []) b h).0);
  transactions_nonempty =
      λ l h. cc (write_one_lem transactions_discrete (bought ∷ []) l (5 ∷ []) [] h).1;
}
