-- ===== src/Listings/Publishable.antt =====
-- core/listings.go: what is known of a listing that validateListing accepts.
use openbazaar.Prelude.{true, some, ◌≡◌, sym, subst, ◌⊎◌, str_eq}
use openbazaar.Exec.{Result, ok, err, panic, validation_error}
use openbazaar.Exec.Invert.{bind_result-ok, search-ok, pointer-ok, fail_if-ok, ok_injective}
use openbazaar.Validation.Identity.{Keys, IsGenuine}
use openbazaar.Proto.Common.{Bytes, PbId}
use openbazaar.Listings.Defs.{Metadata, ListingItem, Listing, SignedListing, Libs}
use openbazaar.Listings.Metadata.{is_market_price, check_slug, check_metadata}
use openbazaar.Listings.Skus.{check_inventory}
use openbazaar.Listings.Items.{check_price, check_description, check_whole_item}
use openbazaar.Listings.Terms.{check_terms}
use openbazaar.Listings.Validate.{
  check_type, check_format, check_vendor, check_listing_signature, check_all, recovered,
  validate_listing,
}
use openbazaar.Listings.Stocked.{IsInventory, check_inventory-IsInventory}
use openbazaar.Listings.Typed.{
  IsInCurrency, IsOfType, check_metadata-IsInCurrency, check_type-IsOfType, check_format-kept,
  check_vendor-IsGenuine, check_listing_signature-ok,
}
use openbazaar.Listings.Priced.{IsPriced, check_price-IsPriced, IsTermed, check_terms-IsTermed}

-- A signed listing that may be published, and the listing `l` as the validation leaves it.
pub record IsPublishable (c : Libs) (sl : SignedListing) (l : Listing) : Type 0 where
  pub before : Listing
  pub meta : Metadata
  pub item : ListingItem
  pub item_left : ListingItem
  pub id : PbId
  pub ser : Bytes
  pub is_listing : sl.listing ≡ some before
  pub has_metadata : before.metadata ≡ some meta
  pub has_item : before.item ≡ some item
  pub in_currency : IsInCurrency c meta
  pub priced : IsPriced c meta item.price
  pub inventory : IsInventory c item
  pub terms : IsTermed c item.price before
  pub of_type : IsOfType c meta item before
  pub item_kept : (is_market_price meta ≡ true) ⊎ (item_left ≡ item)
  pub left : l ≡ record before { item = some item_left }
  pub has_vendor : before.vendor_id ≡ some id
  pub genuine : IsGenuine c.keys id
  pub bytes_left : c.marshal l ≡ some ser
  pub signed : Keys.verify c.keys (IsGenuine.identity genuine) ser sl.signature ≡ some true

check_whole_item-ok :
    (c : Libs) (m : Metadata) (l : Listing) (item : ListingItem)
    → check_whole_item c m l.shipping_options item ≡ ok tt
    → IsPriced c m item.price × IsInventory c item
unfolding check_whole_item check_description
check_whole_item-ok c m l item done =
    let (_, hd, k) = bind_result-ok (check_description c m l.shipping_options item) _ done in
    let (_, hi, _) = bind_result-ok (check_inventory c item) _ k in
    let (_, k1) = fail_if-ok (str_eq item.title "") _ _ hd in
    let (_, hp, _) = bind_result-ok (check_price c m item) _ k1 in
    (check_price-IsPriced c m item hp, check_inventory-IsInventory c item hi)

check_all-IsPublishable :
    (c : Libs) (sl : SignedListing) (l : Listing) → check_all c sl ≡ ok l → IsPublishable c sl l
unfolding check_all
check_all-IsPublishable c sl l done =
    let (before, hl, k) = pointer-ok sl.listing _ done in
    let (_, _, k1) = bind_result-ok (check_slug c before.slug) _ k in
    let (m, hm, k2) = search-ok validation_error before.metadata _ k1 in
    let (_, hc, k3) = bind_result-ok (check_metadata c m) _ k2 in
    let (item, hit, k4) = pointer-ok before.item _ k3 in
    let (_, hi, k5) = bind_result-ok (check_whole_item c m before.shipping_options item) _ k4 in
    let (_, ht, k6) = bind_result-ok (check_terms c item.price before) _ k5 in
    let (_, hy, k7) = bind_result-ok (check_type c m item before) _ k6 in
    let (item1, hf, k8) = bind_result-ok (check_format c m item) _ k7 in
    let l1 : Listing = record before { item = some item1 } in
    let (id, hv, k9) = search-ok validation_error before.vendor_id _ k8 in
    let (key, hk, k10) = bind_result-ok (check_vendor c.keys id) _ k9 in
    let (_, hs, k11) = bind_result-ok (check_listing_signature c key l1 sl.signature) _ k10 in
    let (ser, hser, signed) = check_listing_signature-ok c key l1 sl.signature hs in
    let (g, eg) = check_vendor-IsGenuine c.keys id hk in
    let e : l1 ≡ l = ok_injective k11 in
    record {
      before = before;
      meta = m;
      item = item;
      item_left = item1;
      id = id;
      ser = ser;
      is_listing = hl;
      has_metadata = hm;
      has_item = hit;
      in_currency = check_metadata-IsInCurrency c m hc;
      priced = (check_whole_item-ok c m before item hi).0;
      inventory = (check_whole_item-ok c m before item hi).1;
      terms = check_terms-IsTermed c item.price before ht;
      of_type = check_type-IsOfType c m item before hy;
      item_kept = check_format-kept c m item hf;
      left = sym e;
      has_vendor = hv;
      genuine = g;
      bytes_left = subst (λ t. c.marshal t ≡ some ser) e hser;
      signed = subst (λ t. Keys.verify c.keys t ser sl.signature ≡ some true) (sym eg) signed;
    }

-- What validateListing promises: a signed listing that it accepts has metadata and an item; its price is
-- in a known currency with that currency's decimals unless the market makes it, and is a number other
-- than zero unless a classified or cryptocurrency listing; its options have different names and two to
-- thirty variants with different names, and each of its SKUs makes as many selections as there are
-- options, all of variants that the options have, with no two SKUs of which the selections have the same
-- JSON; each tax has a region and passes the bounds; no coupon takes off more
-- than the price or more than a hundred percent; the moderators are peer IDs; a physical good has
-- shipping to countries, by services of different names; cryptocurrency has no coupons, options or
-- shipping; and the vendor's peer ID belongs to its identity key, is signed by its escrow key, and the
-- identity key has signed the listing as the validation leaves it, which differs from the one that was
-- given only in the item, and only for a market price.
pub validate_listing-IsPublishable :
    (c : Libs) (sl : SignedListing) (l : Listing)
    → validate_listing c sl ≡ ok l
    → IsPublishable c sl l
unfolding validate_listing
validate_listing-IsPublishable c sl l done =
    check_all-IsPublishable c sl l (unrecovered (check_all c sl) done)
  where
    unrecovered : {A : Type 0} {a : A} (r : Result A) → recovered r ≡ ok a → r ≡ ok a
    unrecovered (ok b) h = h
    unrecovered (err e) h = h
    unrecovered panic h = cc
