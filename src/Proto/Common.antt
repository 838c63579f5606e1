-- ===== src/Proto/Common.antt =====
-- orders/pb/common.proto and listing.proto: identities, and listings as far as an order reads them.
-- `others` stands for the fields that no modelled code reads. A message pointer is an `Option`,
-- `none` for nil; a repeated field that is empty on the wire is nil in Go and [] here.
use openbazaar.Prelude.{ℕ, String, Option, List}

-- A `[]byte` that is not nil.
abbrev pub Bytes : Type 0
Bytes = List ℕ

abbrev pub Text : Type 0
Text = String

-- ID.Pubkeys
pub record Pubkeys : Type 0 where
  pub identity : Bytes
  pub escrow : Bytes

-- ID
pub record PbId : Type 0 where
  pub peer_id : Text
  pub handle : Text
  pub pubkeys : Option Pubkeys
  pub sig : Bytes

-- Listing.Metadata.ContractType
pub data ContractType : Type 0 where
  physical_good digital_good service classified cryptocurrency : ContractType

-- Listing.Metadata
pub record Metadata : Type 0 where
  pub contract_type : ContractType
  pub others : Bytes

-- Listing.Item.Image
pub record Image : Type 0 where
  pub tiny : Text
  pub small : Text
  pub others : Bytes

-- Listing.Item; the price modifier is a float32, kept as its bits
pub record ListingItem : Type 0 where
  pub title : Text
  pub images : List Image
  pub crypto_listing_price_modifier : ℕ
  pub others : Bytes

-- Listing
pub record Listing : Type 0 where
  pub slug : Text
  pub vendor_id : Option PbId
  pub metadata : Option Metadata
  pub item : Option ListingItem
  pub others : Bytes

-- SignedListing
pub record SignedListing : Type 0 where
  pub listing : Option Listing
  pub others : Bytes
