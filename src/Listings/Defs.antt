-- ===== src/Listings/Defs.antt =====
-- orders/pb/listing.proto: the fields of a listing that validateListing reads. An enum of the wire is any int32, so it is an integer. A message pointer that the code tests or that a
-- client may leave out is an `Option`, `none` for nil.
use openbazaar.Prelude.{ℕ, Bool, Option, List}
use openbazaar.Prelude.Int.{ℤ}
use openbazaar.Proto.Common.{Bytes, Text, PbId}
use openbazaar.Pricing.Defs.{Float, Selection, CouponCode, Discount}
use openbazaar.Validation.Identity.{Keys}

-- Currency
pub record PricingCurrency : Type 0 where
  pub code : Text
  pub divisibility : ℕ

-- Listing.Metadata; of the expiry its seconds
pub record Metadata : Type 0 where
  pub contract_type : ℤ
  pub format : ℤ
  pub expiry : Option ℤ
  pub accepted_currencies : List Text
  pub language : Text
  pub escrow_timeout_hours : ℕ
  pub pricing_currency : Option PricingCurrency

-- Listing.Item.Image
pub record Image : Type 0 where
  pub filename : Text
  pub original : Text
  pub large : Text
  pub medium : Text
  pub small : Text
  pub tiny : Text

-- Listing.Item.Option.Variant
pub record Variant : Type 0 where
  pub name : Text
  pub image : Option Image

-- Listing.Item.Option
pub record ListingOption : Type 0 where
  pub name : Text
  pub description : Text
  pub variants : List Variant

-- Listing.Item.Sku
pub record Sku : Type 0 where
  pub selections : List Selection
  pub product_id : Text

-- Listing.Item
pub record ListingItem : Type 0 where
  pub title : Text
  pub description : Text
  pub processing_time : Text
  pub tags : List Text
  pub images : List Image
  pub categories : List Text
  pub condition : Text
  pub options : List ListingOption
  pub skus : List Sku
  pub price : Text
  pub crypto_listing_price_modifier : Float

-- Listing.ShippingOption.Service
pub record Service : Type 0 where
  pub name : Text
  pub estimated_delivery : Text
  pub price : Text

-- Listing.ShippingOption
pub record ShippingOption : Type 0 where
  pub name : Text
  pub shipping_type : ℤ
  pub regions : List ℤ
  pub services : List Service

-- Listing.Tax
pub record Tax : Type 0 where
  pub tax_type : Text
  pub tax_regions : List ℤ
  pub percentage : Float

-- Listing.Coupon
pub record Coupon : Type 0 where
  pub title : Text
  pub code : CouponCode
  pub discount : Discount

-- Listing
pub record Listing : Type 0 where
  pub slug : Text
  pub vendor_id : Option PbId
  pub metadata : Option Metadata
  pub item : Option ListingItem
  pub shipping_options : List ShippingOption
  pub taxes : List Tax
  pub coupons : List Coupon
  pub moderators : List Text
  pub terms_and_conditions : Text
  pub refund_policy : Text

-- SignedListing
pub record SignedListing : Type 0 where
  pub listing : Option Listing
  pub cid : Text
  pub signature : Bytes

-- The node and the libraries; `none` is an error that is returned.
pub record Libs : Type 0 where
  pub testnet : Bool
  -- strings.Contains
  pub contains : Text → Text → Bool
  -- a time in seconds lies before the present
  pub is_past : ℤ → Bool
  -- the Divisibility that CurrencyDefinitions.Lookup finds, as a uint32
  pub divisibility_of : Text → Option ℕ
  -- SetString of a big.Int in base 10
  pub big_int : Text → Option ℤ
  -- cid.Decode, peer.Decode without an error
  pub is_cid : Text → Bool
  pub is_peer_id : Text → Bool
  -- json.Marshal of a list of selections
  pub json : List Selection → Option Text
  -- floating point: equality with zero, more than a hundred, float32(int(x * 100)) / 100, and the
  -- bounds of the price modifier
  pub is_zero : Float → Bool
  pub over_hundred : Float → Bool
  pub rounded : Float → Float
  pub under_min : Float → Bool
  pub over_max : Float → Bool
  -- EnumValueMap of the country codes has the name of the number
  pub is_country : ℤ → Bool
  pub marshal : Listing → Option Bytes
  pub keys : Keys
