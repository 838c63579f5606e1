-- ===== src/Validation/Items.antt =====
-- orders/order_open.go: the checks of validateOrderOpen for one item.
use openbazaar.Prelude.{
  ℕ, Bool, true, false, Option, none, some, List, [], ◌∷◌, ◌&&◌, not, ltb, str_eq, ◌==◌, length,
  exists_in, if◌then◌else◌,
}
use openbazaar.Prelude.Int.{pos, leb_ℤ}
use openbazaar.Exec.{
  Result, ok, or_err, or_panic, fail_if, listing_not_found, validation_error, invalid_amount,
}
use openbazaar.Exec.Results.{◌>>=◌, ◌>>◌}
use openbazaar.Proto.Common.{Text, ContractType, classified, cryptocurrency}
use openbazaar.Pricing.Defs.{ItemOption, ItemShipping, Service, ShippingOption}
use openbazaar.Validation.Defs.{ListingOption, Metadata, Listing, Item, Checks}

abbrev pub is_classified : ContractType → Bool
is_classified classified = true
is_classified _ = false

abbrev pub is_crypto : ContractType → Bool
is_crypto cryptocurrency = true
is_crypto _ = false

-- optionMap: the value that was put last under the name.
unfoldable pub chosen : Checks → Text → List ItemOption → Option Text → Option Text
chosen c name [] found = found
chosen c name (o ∷ os) found =
    chosen c name os (if str_eq (c.lower o.name) name then some (c.lower o.value) else found)

unfoldable pub has_variant : Checks → Text → List Text → Bool
has_variant c val variants = exists_in (λ v. str_eq (c.lower v) val) variants

unfoldable pub check_options : Checks → List ItemOption → List ListingOption → Result (Unit {0})
unfolding chosen has_variant
check_options c options [] = ok tt
check_options c options (opt ∷ opts) = do
  val ← or_err validation_error (chosen c (c.lower opt.name) options none)
  fail_if (not (has_variant c val opt.variants)) validation_error
  check_options c options opts

-- shippingOpts: the services that were put last under the name.
unfoldable pub services_of :
    Checks → Text → List ShippingOption → Option (List Service) → Option (List Service)
services_of c name [] found = found
services_of c name (o ∷ os) found =
    services_of c name os (if str_eq (c.lower o.name) name then some o.services else found)

unfoldable pub check_shipping :
    Checks → Option ItemShipping → List ShippingOption → Result (Unit {0})
unfolding services_of
check_shipping c none options = ok tt
check_shipping c (some s) options = do
  services ← or_err validation_error (services_of c (c.lower s.name) options none)
  fail_if (not (exists_in (λ v. str_eq (c.lower (Service.name v)) (c.lower s.service)) services))
      validation_error

-- The longest timeout so far.
abbrev pub longer : ℕ → ℕ → ℕ
longer hours found = if ltb found hours then hours else found

-- One turn of the loop over the items.
unfoldable pub check_item : Checks → Option Item → ℕ → Result ℕ
unfolding check_options check_shipping
check_item c slot timeout = do
  item ← or_err validation_error slot
  found ← or_err listing_not_found (c.listing_of (Item.listing_hash item))
  listing ← or_panic found
  meta ← or_panic (Listing.metadata listing)
  fail_if (is_crypto (Metadata.contract_type meta) && str_eq (Item.payment_address item) "")
      validation_error
  fail_if (leb_ℤ (c.amount (Item.quantity item)) (pos 0)) invalid_amount
  fail_if (is_classified (Metadata.contract_type meta)) validation_error
  options ← or_panic (Listing.options listing)
  fail_if (not (length (Item.options item) == length options)) validation_error
  check_options c (Item.options item) options
  check_shipping c (Item.shipping_option item) (Listing.shipping_options listing)
  ok (longer (Metadata.escrow_timeout_hours meta) timeout)

unfoldable pub check_items : Checks → List (Option Item) → ℕ → Result ℕ
unfolding check_item
check_items c [] timeout = ok timeout
check_items c (item ∷ items) timeout = check_item c item timeout >>= check_items c items
