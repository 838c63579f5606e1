-- ===== src/Listings/Posted.antt =====
-- core/listings.go: the shipping options of a listing that validatePhysicalListing accepts.
use openbazaar.Prelude.{
  true, false, List, [], ◌∷◌, ◌≡◌, ◌⊎◌, ◌&&◌, not, ltb, str_eq, length, len, All, IsApart, is_nil,
  arith,
}
use openbazaar.Prelude.Int.{ℤ, pos, ltb_ℤ}
use openbazaar.Exec.{ok}
use openbazaar.Exec.Invert.{bind_result-ok, fail_if-ok}
use openbazaar.Validation.Valid.{test_of, fail_if-false}
use openbazaar.Proto.Common.{Text}
use openbazaar.Listings.Defs.{Service, ShippingOption, ListingItem, Libs}
use openbazaar.Listings.Limits
use openbazaar.Listings.Loops.{each, each-ok, All-map, has_name, run-IsApart}
use openbazaar.Listings.Metadata.{is_number}
use openbazaar.Listings.Shipping.{
  check_region, check_service, check_services, is_pickup, check_shipping_option,
  check_shipping_options, validate_physical_listing,
}

-- A country and no continent.
abbrev pub IsRegion : Libs → ℤ → Type 0
IsRegion c r = (c.is_country r ≡ true) × (ltb_ℤ (pos 500) r ≡ false)

-- A shipping option: it goes somewhere, by a service unless it is picked up.
pub record IsPosted (c : Libs) (o : ShippingOption) : Type 0 where
  pub somewhere : is_nil o.regions ≡ false
  pub regions : All (IsRegion c) o.regions
  pub by_service : (is_pickup o ≡ true) ⊎ (is_nil o.services ≡ false)
  pub services_named_apart : IsApart (λ s t. str_eq (Service.name s) (Service.name t)) o.services

check_region-IsRegion : (c : Libs) (r : ℤ) → check_region c r ≡ ok tt → IsRegion c r
unfolding check_region
check_region-IsRegion c r done =
    let (_, k) = fail_if-ok (is_number 0 r) _ _ done in
    let (known, k1) = fail_if-ok (not (c.is_country r)) _ _ k in
    (test_of (c.is_country r) known, fail_if-false (ltb_ℤ (pos 500) r) k1)

services-IsApart :
    (ss : List Service)
    → check_services [] ss ≡ ok tt
    → IsApart (λ s t. str_eq (Service.name s) (Service.name t)) ss
unfolding check_services check_service
services-IsApart ss done =
    (run-IsApart (λ seen ts. check_services seen ts ≡ ok tt)
      (λ seen s. has_name (Service.name s) seen) (λ s t. str_eq (Service.name s) (Service.name t))
      (λ seen s ts h.
        let (_, one, k) = bind_result-ok (check_service seen s) _ h in
        let (_, k1) = fail_if-ok (str_eq (Service.name s) "") _ _ one in
        let (_, k2) = fail_if-ok (ltb Limits.word (len (Service.name s))) _ _ k1 in
        let (fresh, _) = fail_if-ok (has_name (Service.name s) seen) _ _ k2 in
        (Service.name s ∷ seen, fresh, k, λ t e. ground (arith, e)))
      [] ss done).1

check_shipping_option-IsPosted :
    (c : Libs) (seen : List Text) (o : ShippingOption)
    → check_shipping_option c seen o ≡ ok tt
    → (has_name o.name seen ≡ false) × IsPosted c o
unfolding check_shipping_option
check_shipping_option-IsPosted c seen o done =
    let (_, k) = fail_if-ok (str_eq o.name "") _ _ done in
    let (_, k1) = fail_if-ok (ltb Limits.word (len o.name)) _ _ k in
    let (fresh, k2) = fail_if-ok (has_name o.name seen) _ _ k1 in
    let (_, k3) = fail_if-ok (ltb_ℤ (pos 1) o.shipping_type) _ _ k2 in
    let (some_region, k4) = fail_if-ok (is_nil o.regions) _ _ k3 in
    let (_, hr, k5) = bind_result-ok (each (check_region c) o.regions) _ k4 in
    let (_, k6) = fail_if-ok (ltb Limits.country_codes (length o.regions)) _ _ k5 in
    let (served, k7) = fail_if-ok (is_nil o.services && not (is_pickup o)) _ _ k6 in
    let (_, k8) = fail_if-ok (ltb Limits.list_items (length o.services)) _ _ k7 in
    (
      fresh,
      record {
        somewhere = some_region;
        regions =
            All-map (λ r. check_region c r ≡ ok tt) (IsRegion c) (check_region-IsRegion c) o.regions
              (each-ok (check_region c) o.regions hr);
        by_service = ground (arith, served);
        services_named_apart = services-IsApart o.services k8;
      },
    )

check_shipping_options-IsPosted :
    (c : Libs) (seen : List Text) (os : List ShippingOption)
    → check_shipping_options c seen os ≡ ok tt
    → All (λ o. IsPosted c o) os
unfolding check_shipping_options
check_shipping_options-IsPosted c seen [] done = tt
check_shipping_options-IsPosted c seen (o ∷ os) done =
    let (_, h, k) = bind_result-ok (check_shipping_option c seen o) _ done in
    (
      (check_shipping_option-IsPosted c seen o h).1,
      check_shipping_options-IsPosted c (o.name ∷ seen) os k,
    )

shipping-IsApart :
    (c : Libs) (os : List ShippingOption)
    → check_shipping_options c [] os ≡ ok tt
    → IsApart (λ o p. str_eq (ShippingOption.name o) (ShippingOption.name p)) os
unfolding check_shipping_options
shipping-IsApart c os done =
    (run-IsApart (λ seen ps. check_shipping_options c seen ps ≡ ok tt)
      (λ seen o. has_name (ShippingOption.name o) seen)
      (λ o p. str_eq (ShippingOption.name o) (ShippingOption.name p))
      (λ seen o ps h.
        let (_, one, k) = bind_result-ok (check_shipping_option c seen o) _ h in
        (
          ShippingOption.name o ∷ seen,
          (check_shipping_option-IsPosted c seen o one).0,
          k,
          λ p e. ground (arith, e),
        ))
      [] os done).1

-- The shipping of a physical good.
pub record IsShipped (c : Libs) (os : List ShippingOption) : Type 0 where
  pub at_least_one : is_nil os ≡ false
  pub posted : All (λ o. IsPosted c o) os
  pub named_apart : IsApart (λ o p. str_eq (ShippingOption.name o) (ShippingOption.name p)) os

pub validate_physical_listing-IsShipped :
    (c : Libs) (item : ListingItem) (os : List ShippingOption)
    → validate_physical_listing c item os ≡ ok tt
    → IsShipped c os
unfolding validate_physical_listing
validate_physical_listing-IsShipped c item os done =
    let (_, k) = fail_if-ok (ltb Limits.sentence (len item.condition)) _ _ done in
    let (_, k1) = fail_if-ok (ltb Limits.list_items (length item.options)) _ _ k in
    let (one, k2) = fail_if-ok (is_nil os) _ _ k1 in
    let (_, k3) = fail_if-ok (ltb Limits.list_items (length os)) _ _ k2 in
    record {
      at_least_one = one;
      posted = check_shipping_options-IsPosted c [] os k3;
      named_apart = shipping-IsApart c os k3;
    }
