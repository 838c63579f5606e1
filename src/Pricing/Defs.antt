-- ===== src/Pricing/Defs.antt =====
-- orders/pb/orders.proto and listing.proto: the fields of an order and of its listings that pricing
-- reads. A message pointer is an `Option`, `none` for nil.
use openbazaar.Prelude.{ℕ, Bool, Option, List}
use openbazaar.Prelude.Int.{ℤ}
use openbazaar.Proto.Common.{Text, ContractType}

-- A float32, kept as its bits.
abbrev pub Float : Type 0
Float = ℕ

-- CountryCode
abbrev pub Country : Type 0
Country = ℕ

-- Listing.Metadata.Format
pub data Format : Type 0 where
  fixed_price market_price : Format

-- Listing.Metadata; the code of the pricing currency
pub record Metadata : Type 0 where
  pub contract_type : ContractType
  pub format : Format
  pub pricing_currency : Option Text

-- Listing.Item.Sku.Selection
pub record Selection : Type 0 where
  pub option : Text
  pub variant : Text

-- Listing.Item.Sku
pub record Sku : Type 0 where
  pub selections : List Selection
  pub surcharge : Text

-- Listing.Item; of its options only whether there are any
pub record ListingItem : Type 0 where
  pub has_options : Bool
  pub skus : List Sku
  pub price : Text
  pub crypto_listing_currency_code : Text
  pub crypto_listing_price_modifier : Float

-- Listing.ShippingOption.Service
pub record Service : Type 0 where
  pub name : Text
  pub price : Text
  pub additional_item_price : Text

-- Listing.ShippingOption
pub record ShippingOption : Type 0 where
  pub name : Text
  pub is_local_pickup : Bool
  pub regions : List Country
  pub services : List Service

-- Listing.Tax
pub record Tax : Type 0 where
  pub tax_regions : List Country
  pub tax_shipping : Bool
  pub percentage : Float

-- The oneofs of Listing.Coupon
pub data CouponCode : Type 0 where
  no_code : CouponCode
  hash discount_code : Text → CouponCode

pub data Discount : Type 0 where
  no_discount : Discount
  percent_discount : Float → Discount
  price_discount : Text → Discount

-- Listing.Coupon
pub record Coupon : Type 0 where
  pub code : CouponCode
  pub discount : Discount

-- Listing
pub record Listing : Type 0 where
  pub metadata : Option Metadata
  pub item : Option ListingItem
  pub shipping_options : List ShippingOption
  pub taxes : List Tax
  pub coupons : List Coupon

-- OrderOpen.Item.Option
pub record ItemOption : Type 0 where
  pub name : Text
  pub value : Text

-- OrderOpen.Item.ShippingOption
pub record ItemShipping : Type 0 where
  pub name : Text
  pub service : Text

-- OrderOpen.Item
pub record Item : Type 0 where
  pub listing_hash : Text
  pub quantity : Text
  pub options : List ItemOption
  pub shipping_option : Option ItemShipping
  pub coupon_codes : List Text

-- OrderOpen; the country of its shipping and the coin of its payment
pub record Order : Type 0 where
  pub items : List Item
  pub country : Option Country
  pub coin : Option Text

-- models.Currency
pub record Currency : Type 0 where
  pub code : Text
  pub is_crypto : Bool
  pub divisibility : ℕ

-- The libraries and the exchange rates; `none` is an error that is returned.
pub record Prices : Type 0 where
  -- iwallet.NewAmount of a text, strings.ToLower
  pub amount : Text → ℤ
  pub lower : Text → Text
  -- CurrencyDefinitions.Lookup, Currency.Equal
  pub lookup : Text → Option Currency
  pub equal : Currency → Currency → Bool
  -- ExchangeRateProvider.GetRate of two codes, and the amount that the floating point makes of it
  pub get_rate : Text → Text → Option ℤ
  pub convert_by : ℤ → ℤ → Currency → Currency → Option ℤ
  -- utils.ExtractListing of the order's listings, MultihashSha256 in base 58
  pub listing_of : Text → Option (Option Listing)
  pub hash_of : Text → Option Text
  -- floating point: division by a hundred, negation, test for a positive number, and the integer part
  -- of the product with an amount
  pub hundredth : Float → Float
  pub negate : Float → Float
  pub is_positive : Float → Bool
  pub portion : Float → ℤ → ℤ
  -- CountryCode_ALL
  pub all_countries : Country
