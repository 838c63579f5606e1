-- ===== src/Listings/Validate.antt =====
-- core/listings.go: validateListing and deserializeAndValidateListing.
use openbazaar.Prelude.{Option, some, not, ◌==◌, str_eq, length, if◌then◌else◌}
use openbazaar.Exec.{
  Result, ok, err, panic, fail_if, or_external, or_err, or_panic, external, not_found,
  validation_error,
}
use openbazaar.Exec.Results.{◌>>=◌, ◌>>◌}
use openbazaar.Proto.Common.{Bytes, Text, Pubkeys, PbId}
use openbazaar.Validation.Identity.{Keys}
use openbazaar.Listings.Defs.{Metadata, ListingItem, Listing, SignedListing, Libs}
use openbazaar.Listings.Limits
use openbazaar.Listings.Loops.{at_most}
use openbazaar.Listings.Metadata.{
  is_physical_type, is_crypto_type, is_market_price, check_slug, check_metadata,
}
use openbazaar.Listings.Items.{check_whole_item}
use openbazaar.Listings.Terms.{check_terms}
use openbazaar.Listings.Shipping.{
  validate_physical_listing, validate_cryptocurrency_listing, validate_market_price_listing,
}

-- The type-specific validations.
unfoldable pub check_type : Libs → Metadata → ListingItem → Listing → Result (Unit {0})
unfolding validate_physical_listing validate_cryptocurrency_listing is_physical_type is_crypto_type
check_type c m item l =
    if is_physical_type m
    then validate_physical_listing c item l.shipping_options
    else (if is_crypto_type m then validate_cryptocurrency_listing item l else ok tt)

-- The format-specific validations, which may change the item.
unfoldable pub check_format : Libs → Metadata → ListingItem → Result ListingItem
unfolding validate_market_price_listing is_market_price
check_format c m item = if is_market_price m then validate_market_price_listing c item else ok item

-- The vendor's ID; it returns the identity key.
unfoldable pub check_vendor : Keys → PbId → Result Bytes
check_vendor c id = do
  at_most Limits.sentence id.handle
  pubkeys ← or_err validation_error id.pubkeys
  identity ← or_err validation_error (c.identity_key (Pubkeys.identity pubkeys))
  pid ← or_external (c.peer_id_of identity)
  fail_if (not (str_eq pid id.peer_id)) validation_error
  fail_if (not (length (Pubkeys.escrow pubkeys) == 33)) validation_error
  escrow ← or_err validation_error (c.escrow_key (Pubkeys.escrow pubkeys))
  sig ← or_err validation_error (c.parse_signature id.sig)
  fail_if (not (c.verify_hash sig (c.sum_text id.peer_id) escrow)) validation_error
  ok identity

-- The signature is over the listing as the validations leave it.
unfoldable pub check_listing_signature : Libs → Bytes → Listing → Bytes → Result (Unit {0})
check_listing_signature c identity l sig = do
  ser ← or_external (c.marshal l)
  valid ← or_external (Keys.verify c.keys identity ser sig)
  fail_if (not valid) validation_error

-- validateListing before its deferred function; it returns the listing as it leaves it.
unfoldable pub check_all : Libs → SignedListing → Result Listing
unfolding check_slug check_metadata check_whole_item check_terms check_type check_format
    check_vendor check_listing_signature
check_all c sl = do
  l ← or_panic sl.listing
  check_slug c (Listing.slug l)
  m ← or_err validation_error (Listing.metadata l)
  check_metadata c m
  item ← or_panic (Listing.item l)
  check_whole_item c m (Listing.shipping_options l) item
  check_terms c (ListingItem.price item) l
  check_type c m item l
  item1 ← check_format c m item
  let l1 : Listing = record l { item = some item1 }
  id ← or_err validation_error (Listing.vendor_id l)
  identity ← check_vendor c.keys id
  check_listing_signature c identity l1 sl.signature
  ok l1

-- `recover`: a panic becomes an error.
abbrev pub recovered : {A : Type 0} → Result A → Result A
recovered panic = err external
recovered (err e) = err e
recovered (ok a) = ok a

unfoldable pub validate_listing : Libs → SignedListing → Result Listing
unfolding check_all
validate_listing c sl = recovered (check_all c sl)

-- deserializeAndValidateListing: every error becomes ErrNotFound.
unfoldable pub deserialize_and_validate_listing :
    Libs → (Bytes → Option SignedListing) → Bytes → Text → Result SignedListing
unfolding validate_listing
deserialize_and_validate_listing c unmarshal bytes cid = do
  sl ← or_err not_found (unmarshal bytes)
  elim (validate_listing c sl) [
    | ok l ↦ ok (record sl { listing = some l; cid = cid })
    | err e ↦ err not_found
    | panic ↦ panic
  ]
