-- ===== src/Listings/Shipping.antt =====
-- core/listings.go: validatePhysicalListing, validShippingRegion, validateCryptocurrencyListing and
-- validateMarketPriceListing.
use openbazaar.Prelude.{
  Bool, List, [], ◌∷◌, not, ◌&&◌, ◌||◌, ltb, str_eq, len, is_nil, length, if◌then◌else◌,
}
use openbazaar.Prelude.Int.{ℤ, pos, ltb_ℤ}
use openbazaar.Exec.{Result, ok, fail_if, or_panic, validation_error}
use openbazaar.Exec.Results.{◌>>=◌, ◌>>◌}
use openbazaar.Proto.Common.{Text}
use openbazaar.Listings.Defs.{Service, ShippingOption, ListingItem, Listing, Libs}
use openbazaar.Listings.Limits
use openbazaar.Listings.Loops.{each, at_most, present, has_name}
use openbazaar.Listings.Metadata.{is_number}

-- The body of the loop of validShippingRegion.
unfoldable pub check_region : Libs → ℤ → Result (Unit {0})
check_region c region = do
  fail_if (is_number 0 region) validation_error
  fail_if (not (c.is_country region)) validation_error
  fail_if (ltb_ℤ (pos 500) region) validation_error

unfoldable pub check_service : List Text → Service → Result (Unit {0})
check_service seen s = do
  present s.name
  at_most Limits.word s.name
  fail_if (has_name s.name seen) validation_error
  present s.estimated_delivery
  at_most Limits.sentence s.estimated_delivery
  at_most Limits.word s.price

-- The loop over the services; `seen` are `serviceTitles`.
unfoldable pub check_services : List Text → List Service → Result (Unit {0})
unfolding check_service
check_services seen [] = ok tt
check_services seen (s ∷ ss) = do check_service seen s; check_services (s.name ∷ seen) ss

unfoldable pub is_pickup : ShippingOption → Bool
is_pickup o = is_number 0 o.shipping_type

unfoldable pub check_shipping_option : Libs → List Text → ShippingOption → Result (Unit {0})
unfolding check_region check_services is_pickup each
check_shipping_option c seen o = do
  present o.name
  at_most Limits.word o.name
  fail_if (has_name o.name seen) validation_error
  fail_if (ltb_ℤ (pos 1) o.shipping_type) validation_error
  fail_if (is_nil o.regions) validation_error
  each (check_region c) o.regions
  fail_if (ltb Limits.country_codes (length o.regions)) validation_error
  fail_if (is_nil o.services && not (is_pickup o)) validation_error
  fail_if (ltb Limits.list_items (length o.services)) validation_error
  check_services [] o.services

-- The loop over the shipping options; `seen` are `shippingTitles`.
unfoldable pub check_shipping_options : Libs → List Text → List ShippingOption → Result (Unit {0})
unfolding check_shipping_option
check_shipping_options c seen [] = ok tt
check_shipping_options c seen (o ∷ os) = do
  check_shipping_option c seen o
  check_shipping_options c (o.name ∷ seen) os

unfoldable pub validate_physical_listing :
    Libs → ListingItem → List ShippingOption → Result (Unit {0})
unfolding check_shipping_options
validate_physical_listing c item options = do
  at_most Limits.sentence item.condition
  fail_if (ltb Limits.list_items (length item.options)) validation_error
  fail_if (is_nil options) validation_error
  fail_if (ltb Limits.list_items (length options)) validation_error
  check_shipping_options c [] options

unfoldable pub validate_cryptocurrency_listing : ListingItem → Listing → Result (Unit {0})
validate_cryptocurrency_listing item l = do
  fail_if (not (is_nil l.coupons)) validation_error
  fail_if (not (is_nil item.options)) validation_error
  fail_if (not (is_nil l.shipping_options)) validation_error
  fail_if (ltb 0 (len item.condition)) validation_error

-- A price that is no number is nil here too.
unfoldable pub check_no_price : Libs → Text → Result (Unit {0})
check_no_price c price =
    if str_eq price ""
    then ok tt
    else (or_panic (c.big_int price) >>= λ n. fail_if (ltb_ℤ (pos 0) n) validation_error)

-- It returns the item with the modifier cut to two decimals.
unfoldable pub validate_market_price_listing : Libs → ListingItem → Result ListingItem
unfolding check_no_price
validate_market_price_listing c item = do
  check_no_price c item.price
  let modifier =
      if c.is_zero item.crypto_listing_price_modifier
      then item.crypto_listing_price_modifier
      else c.rounded item.crypto_listing_price_modifier
  fail_if (c.under_min modifier || c.over_max modifier) validation_error
  ok (record item { crypto_listing_price_modifier = modifier })
