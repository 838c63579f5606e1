-- ===== src/Examples/Selling.antt =====
-- The theorems about prices, acknowledgements and the network at concrete inputs.
use openbazaar.Prelude.{
  ℕ, suc, true, false, none, some, List, [], ◌∷◌, ◌++◌, ◌≡◌, refl, str_eq, if◌then◌else◌,
}
use openbazaar.Prelude.Int.{ℤ, pos, ◌+ℤ◌, ◌-ℤ◌}
use openbazaar.Exec.{ok}
use openbazaar.Proto.Common.{Text, digital_good}
use openbazaar.Proto.Net.{NetType, NetMessage, OrderMessage, order_cancel}
use openbazaar.Pricing.Amounts.{◌*ℤ◌}
use openbazaar.Pricing.Defs.{Listing, Order, Prices, discount_code, price_discount, fixed_price}
use openbazaar.Pricing.Shipping.{ItemRates, rates_total, one_item_total, many_items_total}
use openbazaar.Pricing.Totals.{OrderTotals, calculate_order_total}
use openbazaar.Pricing.Single.{calculate_order_total-AddsUp}
use openbazaar.Pricing.Charges.{IsOneOf, IsHighest, charge, all_secondary, rates_total-IsHighest}
use openbazaar.Pricing.OneItem.{one_item_total-many}
use openbazaar.Order.Defs.{Order as OrderRow, zero_order}
use openbazaar.Messenger.Download.{Handlers}
use openbazaar.Processor.Acks.{AckEnv, Tables, process_order_ack, handle_ack_message}
use openbazaar.Processor.Acked.{
  IsRaised, AckOutcome, process_order_ack-IsRaised, handle_ack_message-AckOutcome,
}
use openbazaar.Network.Bans.{BanManager, is_banned, is_key}
use openbazaar.Network.Service.{Turn, handle_new_message, handle_new_message-banned}
use openbazaar.Network.Sender.{MessageSender, Host, written, write_error}
use openbazaar.Examples.Messaging.{hello, row}

-- A mug that costs 100, with a tax of which a piece is 7, and a coupon of 20.
abbrev mug : Listing
mug = record {
  metadata = some (record {
    contract_type = digital_good;
    format = fixed_price;
    pricing_currency = some "BTC";
  });
  item = some (record {
    has_options = false;
    skus = [];
    price = "100";
    crypto_listing_currency_code = "";
    crypto_listing_price_modifier = 0;
  });
  shipping_options = [];
  taxes = record { tax_regions = 1 ∷ []; tax_shipping = false; percentage = 7 } ∷ [];
  coupons = record { code = discount_code "spring"; discount = price_discount "20" } ∷ [];
}

abbrev amount_of : Text → ℤ
amount_of t =
    if str_eq t "100"
    then pos 100
    else if str_eq t "20"
    then pos 20
    else if str_eq t "1"
    then pos 1
    else pos 0

abbrev prices : Prices
prices = record {
  amount = amount_of;
  lower = λ t. t;
  lookup = λ code. some (record { code = code; is_crypto = true; divisibility = 8 });
  equal = λ a b. true;
  get_rate = λ a b. none;
  convert_by = λ r a f t. none;
  listing_of = λ h. some (some mug);
  hash_of = λ t. some "h";
  hundredth = λ f. f;
  negate = λ f. f;
  is_positive = λ f. false;
  portion = λ f a. pos f;
  all_countries = 500;
}

abbrev mug_order : Order
mug_order = record {
  items =
      record {
        listing_hash = "h";
        quantity = "1";
        options = [];
        shipping_option = none;
        coupon_codes = "spring" ∷ [];
      }
      ∷ [];
  country = some 1;
  coin = some "BTC";
}

abbrev mug_totals : OrderTotals
mug_totals = record {
  subtotal = pos 100;
  shipping = pos 0;
  discounts = pos 0 -ℤ pos 20;
  taxes = pos 7;
  total = pos 87;
}

calculate_order_total-AddsUp_example :
    mug_totals.total
    ≡ mug_totals.subtotal +ℤ mug_totals.taxes +ℤ mug_totals.discounts +ℤ mug_totals.shipping
unfolding calculate_order_total ◌+ℤ◌ ◌*ℤ◌ ◌-ℤ◌
calculate_order_total-AddsUp_example =
    calculate_order_total-AddsUp prices mug_order mug_totals (refl, tt) refl

abbrev cheap : ItemRates
cheap = record {
  primary = pos 10;
  secondary = pos 4;
  quantity = pos 3;
  shipping_tax_percentage = 0;
}

abbrev dear : ItemRates
dear = record cheap { primary = pos 20 }

rates_total-IsHighest_example :
    (best : ItemRates) × IsOneOf best (cheap ∷ dear ∷ [])
    × IsHighest best (cheap ∷ dear ∷ [])
    × (rates_total prices (cheap ∷ dear ∷ [])
          +ℤ charge prices best.shipping_tax_percentage best.secondary
        ≡ all_secondary prices (cheap ∷ dear ∷ [])
          +ℤ charge prices best.shipping_tax_percentage best.primary)
rates_total-IsHighest_example = rates_total-IsHighest prices cheap dear []

one_item_total-many_example : one_item_total prices cheap ≡ many_items_total prices cheap []
one_item_total-many_example = one_item_total-many prices cheap 2 refl (λ a. refl)

abbrev cancel : OrderMessage
cancel = record { order_id = ""; message_type = order_cancel; message = []; signature = [] }

abbrev ack_env : AckEnv
ack_env = record {
  unmarshal_ack = λ b. some "m1";
  can_read = true;
  can_commit = true;
  unmarshal_message = λ b. some hello;
  unmarshal_order_message = λ b. some cancel;
  can_update = true;
  can_delete = true;
  order_type = "ORDER";
  dispute_type = "DISPUTE";
}

process_order_ack-IsRaised_example :
    (os : List OrderRow) × (process_order_ack ack_env row (zero_order ∷ []) ≡ ok os)
    × IsRaised 2 "" (zero_order ∷ []) os
process_order_ack-IsRaised_example =
    process_order_ack-IsRaised ack_env row (zero_order ∷ []) hello cancel 2 refl refl refl refl

abbrev tables : Tables
tables = record { orders = zero_order ∷ []; outgoing = row ∷ [] }

abbrev acked : NetMessage
acked = record { net_type = NetType.ack; message_id = "m2"; sequence = 0; payload = [] }

handle_ack_message-AckOutcome_example :
    AckOutcome ack_env acked tables (handle_ack_message ack_env acked tables)
handle_ack_message-AckOutcome_example = handle_ack_message-AckOutcome ack_env acked tables

abbrev mallory : BanManager
mallory = record { blocked_ids = "mallory" ∷ [] }

-- Each handler counts; a message comes before the ban, and one after it.
abbrev counting : Handlers ℕ
counting t = some (λ p m n. (ok tt, suc n))

abbrev free : Turn
free = record { is_done = false; message = some hello; bans = record { blocked_ids = [] } }

abbrev banned : Turn
banned = record free { bans = mallory }

handle_new_message-banned_example :
    (handle_new_message
        (λ p. p)
        counting
        "mallory"
        (record { blocked_ids = [] })
        ((free ∷ []) ++ banned ∷ [])
        0
      ≡ handle_new_message (λ p. p) counting "mallory" (record { blocked_ids = [] }) (free ∷ []) 0)
    × (handle_new_message (λ p. p) counting "mallory" mallory (free ∷ []) 0 ≡ (ok tt, 0))
unfolding is_banned is_key
handle_new_message-banned_example =
    handle_new_message-banned (λ p. p) counting "mallory" (record { blocked_ids = [] }) (free ∷ [])
      [] banned 0 refl

-- The first write fails.
abbrev flaky : Host
flaky = record {
  new_stream = λ again. true;
  write = λ again. if again then written else write_error;
  lands = λ again. false;
}

abbrev sender : MessageSender
sender = record { has_stream = false; single_mes = 0; invalid = false; sent = [] }
