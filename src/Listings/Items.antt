-- ===== src/Listings/Items.antt =====
-- core/listings.go: validateListing on the item of a listing.
use openbazaar.Prelude.{List, not, ◌&&◌, ltb, is_nil, length, if◌then◌else◌}
use openbazaar.Exec.{Result, ok, fail_if, or_err, or_panic, validation_error}
use openbazaar.Exec.Results.{◌>>=◌, ◌>>◌}
use openbazaar.Proto.Common.{Text}
use openbazaar.Listings.Defs.{Metadata, ListingItem, ShippingOption, Libs}
use openbazaar.Listings.Limits
use openbazaar.Listings.Loops.{each, at_most, present}
use openbazaar.Listings.Options.{check_image}
use openbazaar.Listings.Skus.{check_inventory}
use openbazaar.Listings.Metadata.{is_number, is_classified_type, is_crypto_type, is_market_price}

-- A price that is no number is nil, and comparing nil with zero panics.
unfoldable pub check_price : Libs → Metadata → ListingItem → Result (Unit {0})
unfolding is_crypto_type is_classified_type
check_price c m item =
    if not (is_crypto_type m) && not (is_classified_type m)
    then (do price ← or_panic (c.big_int item.price); fail_if (is_number 0 price) validation_error)
    else ok tt

unfoldable pub check_tag : Text → Result (Unit {0})
check_tag t = do present t; at_most Limits.word t

unfoldable pub check_images : Libs → ListingItem → Result (Unit {0})
unfolding check_image each
check_images c item = do
  fail_if (is_nil item.images) validation_error
  fail_if (ltb Limits.list_items (length item.images)) validation_error
  each (check_image c) item.images

-- From the title to the categories.
unfoldable pub check_description :
    Libs → Metadata → List ShippingOption → ListingItem → Result (Unit {0})
unfolding check_price check_tag check_images is_classified_type each
check_description c m shipping item = do
  present item.title
  check_price c m item
  fail_if (is_classified_type m && not (is_nil shipping)) validation_error
  at_most Limits.title item.title
  at_most Limits.description item.description
  at_most Limits.sentence item.processing_time
  fail_if (ltb Limits.tags (length item.tags)) validation_error
  each check_tag item.tags
  check_images c item
  fail_if (ltb Limits.categories (length item.categories)) validation_error
  each check_tag item.categories

-- The price as text, after the SKUs.
unfoldable pub check_price_text : Libs → Metadata → ListingItem → Result (Unit {0})
unfolding is_market_price
check_price_text c m item = do
  at_most Limits.sentence item.price
  if is_market_price m
      then ok tt
      else (or_err validation_error (c.big_int item.price) >>= λ _. ok tt)

unfoldable pub check_whole_item :
    Libs → Metadata → List ShippingOption → ListingItem → Result (Unit {0})
unfolding check_description check_inventory check_price_text
check_whole_item c m shipping item = do
  check_description c m shipping item
  check_inventory c item
  check_price_text c m item
