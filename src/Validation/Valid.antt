-- ===== src/Validation/Valid.antt =====
-- orders/order_open.go: what is known of an item that validateOrderOpen accepts.
use openbazaar.Prelude.{
  ℕ, Bool, true, false, Option, none, some, List, [], ◌∷◌, ◌≡◌, refl, ap, ◌∙◌, ◌&&◌, not, str_eq,
  ◌==◌, length, exists_in, All, arith,
}
use openbazaar.Prelude.Int.{pos, leb_ℤ}
use openbazaar.Exec.{Error, ok, fail_if, listing_not_found, validation_error}
use openbazaar.Exec.Invert.{bind_result-ok, search-ok, pointer-ok, fail_if-ok}
use openbazaar.Proto.Common.{Text}
use openbazaar.Pricing.Defs.{ItemOption, ItemShipping, Service, ShippingOption}
use openbazaar.Validation.Defs.{ListingOption, Metadata, Listing, Item, Checks}
use openbazaar.Validation.Items.{
  is_classified, is_crypto, chosen, has_variant, check_options, services_of, check_shipping,
  check_item, check_items,
}

-- Each option of the listing was chosen, with a value that is one of its variants.
abbrev pub AreChosen : Checks → List ItemOption → List ListingOption → Type 0
AreChosen c options opts =
    All
      (λ opt.
        (val : Text) × (chosen c (c.lower (ListingOption.name opt)) options none ≡ some val)
        × (has_variant c val (ListingOption.variants opt) ≡ true))
      opts

-- The shipping that was chosen, if any, is a service of an option of the listing.
abbrev pub IsShippable : Checks → Option ItemShipping → List ShippingOption → Type 0
IsShippable c none options = Unit
IsShippable c (some s) options =
    (services : List Service) × (services_of c (c.lower s.name) options none ≡ some services)
    × (exists_in (λ v. str_eq (c.lower (Service.name v)) (c.lower s.service)) services ≡ true)

-- What an item of an accepted order is.
pub record IsValidItem (c : Checks) (slot : Option Item) : Type 0 where
  pub item : Item
  pub listing : Listing
  pub meta : Metadata
  pub options : List ListingOption
  pub is_item : slot ≡ some item
  pub in_order : c.listing_of item.listing_hash ≡ some (some listing)
  pub has_metadata : listing.metadata ≡ some meta
  pub has_options : listing.options ≡ some options
  pub has_quantity : leb_ℤ (c.amount item.quantity) (pos 0) ≡ false
  pub is_sold : is_classified meta.contract_type ≡ false
  pub all_chosen : length item.options ≡ length options
  pub are_chosen : AreChosen c item.options options
  pub is_shippable : IsShippable c item.shipping_option listing.shipping_options

pub test_of : (b : Bool) → not b ≡ false → b ≡ true
test_of b h = ground (arith, h)

pub passed : (b : Bool) → fail_if (not b) validation_error ≡ ok tt → b ≡ true
passed true h = refl
passed false h = cc

pub fail_if-passes : (b : Bool) (e : Error) → fail_if b e ≡ ok tt → b ≡ false
fail_if-passes true e h = cc
fail_if-passes false e h = ground arith

pub fail_if-false : (b : Bool) → fail_if b validation_error ≡ ok tt → b ≡ false
fail_if-false b h = fail_if-passes b validation_error h

check_options-AreChosen :
    (c : Checks) (options : List ItemOption) (opts : List ListingOption)
    → check_options c options opts ≡ ok tt
    → AreChosen c options opts
unfolding check_options
check_options-AreChosen c options [] done = tt
check_options-AreChosen c options (opt ∷ opts) done =
    let (val, hv, k) =
      search-ok validation_error (chosen c (c.lower opt.name) options none) _ done in
    let (t, k1) = fail_if-ok (not (has_variant c val opt.variants)) _ _ k in
    ((val, hv, test_of _ t), check_options-AreChosen c options opts k1)

check_shipping-IsShippable :
    (c : Checks) (chosen : Option ItemShipping) (options : List ShippingOption)
    → check_shipping c chosen options ≡ ok tt
    → IsShippable c chosen options
unfolding check_shipping
check_shipping-IsShippable c none options done = tt
check_shipping-IsShippable c (some s) options done =
    let (services, hs, k) =
      search-ok validation_error (services_of c (c.lower s.name) options none) _ done in
    (
      services,
      hs,
      passed (exists_in (λ v. str_eq (c.lower (Service.name v)) (c.lower s.service)) services) k,
    )

check_item-IsValidItem :
    (c : Checks) (slot : Option Item) (timeout t : ℕ)
    → check_item c slot timeout ≡ ok t
    → IsValidItem c slot
unfolding check_item
check_item-IsValidItem c slot timeout t done =
    let (item, hi, k) = search-ok validation_error slot _ done in
    let (found, hf, k1) = search-ok listing_not_found (c.listing_of item.listing_hash) _ k in
    let (listing, hl, k2) = pointer-ok found _ k1 in
    let (meta, hm, k3) = pointer-ok listing.metadata _ k2 in
    let (_, k4) =
      fail_if-ok (is_crypto meta.contract_type && str_eq item.payment_address "") _ _ k3 in
    let (positive, k5) = fail_if-ok (leb_ℤ (c.amount item.quantity) (pos 0)) _ _ k4 in
    let (sold, k6) = fail_if-ok (is_classified meta.contract_type) _ _ k5 in
    let (options, ho, k7) = pointer-ok listing.options _ k6 in
    let (same, k8) = fail_if-ok (not (length item.options == length options)) _ _ k7 in
    let (_, hc, k9) = bind_result-ok (check_options c item.options options) _ k8 in
    let (_, hs, _) =
      bind_result-ok (check_shipping c item.shipping_option listing.shipping_options) _ k9 in
    record {
      item = item;
      listing = listing;
      meta = meta;
      options = options;
      is_item = hi;
      in_order = hf ∙ ap {B = Option (Option Listing)} (λ o. some o) hl;
      has_metadata = hm;
      has_options = ho;
      has_quantity = positive;
      is_sold = sold;
      all_chosen = ground (arith, same);
      are_chosen = check_options-AreChosen c item.options options hc;
      is_shippable = check_shipping-IsShippable c item.shipping_option listing.shipping_options hs;
    }

pub check_items-IsValidItem :
    (c : Checks) (items : List (Option Item)) (timeout t : ℕ)
    → check_items c items timeout ≡ ok t
    → All (λ slot. IsValidItem c slot) items
unfolding check_items
check_items-IsValidItem c [] timeout t done = tt
check_items-IsValidItem c (item ∷ items) timeout t done =
    let (u, hu, k) = bind_result-ok (check_item c item timeout) _ done in
    (check_item-IsValidItem c item timeout u hu, check_items-IsValidItem c items u t k)
