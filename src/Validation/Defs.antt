-- ===== src/Validation/Defs.antt =====
-- orders/pb/orders.proto and listing.proto: the fields of an order and of its listings that
-- validateOrderOpen reads. A message pointer is an `Option`, `none` for nil; a repeated field is nil
-- where it is empty.
use openbazaar.Prelude.{ℕ, Bool, Option, List}
use openbazaar.Prelude.Int.{ℤ}
use openbazaar.Exec.{Result}
use openbazaar.Proto.Common.{Bytes, Text, ContractType}
use openbazaar.Pricing.Defs.{ItemOption, ItemShipping, ShippingOption}

-- Listing.Item.Sku
pub record SkuStock : Type 0 where
  pub quantity : Text
  pub others : Bytes

-- Listing, as it is compared with the vendor's own; `skus` are those of its item
pub record SaleListing : Type 0 where
  pub slug : Text
  pub skus : Option (List SkuStock)
  pub others : Bytes

-- Listing.Item.Option, with the names of its variants
pub record ListingOption : Type 0 where
  pub name : Text
  pub variants : List Text

-- Listing.Metadata
pub record Metadata : Type 0 where
  pub contract_type : ContractType
  pub escrow_timeout_hours : ℕ

-- Listing; `options` are those of its item
pub record Listing : Type 0 where
  pub metadata : Option Metadata
  pub options : Option (List ListingOption)
  pub shipping_options : List ShippingOption

-- OrderOpen.Item
pub record Item : Type 0 where
  pub listing_hash : Text
  pub quantity : Text
  pub payment_address : Text
  pub options : List ItemOption
  pub shipping_option : Option ItemShipping

-- OrderOpen.Payment
pub record Payment : Type 0 where
  pub is_direct : Bool
  pub coin : Text
  pub address : Text

-- OrderOpen
pub record Order : Type 0 where
  pub listings : List (Option SaleListing)
  pub payment : Option Payment
  pub items : List (Option Item)
  pub has_timestamp : Bool
  pub has_buyer_id : Bool
  pub rating_keys : List Bytes

-- The libraries, and the checks of orders/utils/validate.go; `none` is an error that is returned.
pub record Checks : Type 0 where
  -- iwallet.NewAmount of a text, strings.ToLower
  pub amount : Text → ℤ
  pub lower : Text → Text
  -- utils.ExtractListing of the order's listings
  pub listing_of : Text → Option (Option Listing)
  -- WalletForCurrencyCode, and HasKey of its wallet for an address
  pub wallet_for : Text → Option (Text → Option Bool)
  -- dbtx.GetListing of a slug, proto.Marshal of a listing
  pub get_listing : Text → Option SaleListing
  pub marshal : SaleListing → Option Bytes
  -- ValidateBuyerID; ValidatePayment with the escrow timeout; btcec.ParsePubKey
  pub validate_buyer_id : Result (Unit {0})
  pub validate_payment : ℕ → Result (Unit {0})
  pub is_pubkey : Bytes → Bool
  -- CalcOrderID in base 58
  pub order_hash : Option Text
