-- ===== src/Listings/Typed.antt =====
-- core/listings.go: the currency, the type and the vendor of a listing that validateListing accepts.
use openbazaar.Prelude.{
  Bool, true, false, Option, none, some, ◌≡◌, sym, ap, ◌∙◌, ◌⊎◌, inl, inr, ◌&&◌, not, ltb, ◌==◌,
  str_eq, eq_iff, len, length, is_nil, Bool-cases, Option-cases, arith,
}
use openbazaar.Prelude.Int.{pos, ltb_ℤ}
use openbazaar.Exec.{ok, validation_error}
use openbazaar.Exec.Invert.{bind_result-ok, search-ok, external-ok, fail_if-ok, ok_injective}
use openbazaar.Validation.Valid.{test_of, passed}
use openbazaar.Validation.Identity.{Keys, IsGenuine}
use openbazaar.Proto.Common.{Bytes, Text, PbId}
use openbazaar.Listings.Defs.{PricingCurrency, Metadata, ListingItem, Listing, Libs}
use openbazaar.Listings.Limits
use openbazaar.Listings.Loops.{each, at_most}
use openbazaar.Listings.Metadata.{
  is_physical_type, is_crypto_type, is_market_price, check_currency, check_pricing, check_metadata,
}
use openbazaar.Listings.Shipping.{validate_cryptocurrency_listing}
use openbazaar.Listings.Validate.{check_type, check_format, check_vendor, check_listing_signature}
use openbazaar.Listings.Posted.{IsShipped, validate_physical_listing-IsShipped}

-- The price is in a known currency with its number of decimals, or it is the market's.
abbrev pub IsInCurrency : Libs → Metadata → Type 0
IsInCurrency c m =
    ((m.pricing_currency ≡ none) × (is_market_price m ≡ true))
    ⊎ (p : PricingCurrency) × (m.pricing_currency ≡ some p)
      × (c.divisibility_of p.code ≡ some p.divisibility)

-- Physical goods are shipped; cryptocurrency has no coupons, options or shipping.
pub record IsOfType (c : Libs) (m : Metadata) (item : ListingItem) (l : Listing) : Type 0 where
  pub shipped : (is_physical_type m ≡ false) ⊎ IsShipped c l.shipping_options
  pub bare :
      (is_physical_type m ≡ true)
      ⊎ ((is_crypto_type m ≡ false)
          ⊎ (is_nil l.coupons ≡ true)
            × (is_nil item.options ≡ true)
            × (is_nil l.shipping_options ≡ true))

check_pricing-IsInCurrency :
    (c : Libs) (m : Metadata) → check_pricing c m ≡ ok tt → IsInCurrency c m
unfolding check_pricing check_currency
check_pricing-IsInCurrency c m done = elim (Option-cases m.pricing_currency) [
  | inl e ↦ inl (e, passed (is_market_price m) (rw e at done))
  | inr (p, e) ↦
      let (_, k) = fail_if-ok (str_eq p.code "") _ _ (rw e at done) in
      let (_, k1) = fail_if-ok (ltb Limits.word (len p.code)) _ _ k in
      let (d, hd, k2) = search-ok validation_error (c.divisibility_of p.code) _ k1 in
      let same = passed (p.divisibility == d) k2 in
      let eq : p.divisibility ≡ d = ground (arith, same) in inr (p, e, cc)
]

pub check_metadata-IsInCurrency :
    (c : Libs) (m : Metadata) → check_metadata c m ≡ ok tt → IsInCurrency c m
unfolding check_metadata
check_metadata-IsInCurrency c m done =
    let (_, k) = fail_if-ok (ltb_ℤ (pos 4) m.contract_type) _ _ done in
    let (_, k1) = fail_if-ok (ltb_ℤ (pos 1) m.format) _ _ k in
    let (expiry, _, k2) = search-ok validation_error m.expiry _ k1 in
    let (_, k3) = fail_if-ok (c.is_past expiry) _ _ k2 in
    let (_, k4) = fail_if-ok (ltb Limits.word (len m.language)) _ _ k3 in
    let (_, k5) =
      fail_if-ok (not c.testnet && ltb Limits.escrow_timeout m.escrow_timeout_hours) _ _ k4 in
    let (_, k6) = fail_if-ok (is_nil m.accepted_currencies) _ _ k5 in
    let (_, k7) = fail_if-ok (ltb Limits.list_items (length m.accepted_currencies)) _ _ k6 in
    let (_, _, k8) = bind_result-ok (each (at_most Limits.word) m.accepted_currencies) _ k7 in
    check_pricing-IsInCurrency c m k8

bare_crypto :
    (c : Libs) (m : Metadata) (item : ListingItem) (l : Listing)
    → is_physical_type m ≡ false
    → check_type c m item l ≡ ok tt
    → (is_crypto_type m ≡ false)
      ⊎ (is_nil l.coupons ≡ true)
        × (is_nil item.options ≡ true)
        × (is_nil l.shipping_options ≡ true)
unfolding check_type validate_cryptocurrency_listing
bare_crypto c m item l e done = elim (Bool-cases (is_crypto_type m)) [
  | inr f ↦ inl f
  | inl f ↦
      let (a, k) = fail_if-ok (not (is_nil l.coupons)) _ _ (rw (e, f) at done) in
      let (b, k1) = fail_if-ok (not (is_nil item.options)) _ _ k in
      let (d, _) = fail_if-ok (not (is_nil l.shipping_options)) _ _ k1 in
      inr (test_of _ a, test_of _ b, test_of _ d)
]

pub check_type-IsOfType :
    (c : Libs) (m : Metadata) (item : ListingItem) (l : Listing)
    → check_type c m item l ≡ ok tt
    → IsOfType c m item l
unfolding check_type
check_type-IsOfType c m item l done = elim (Bool-cases (is_physical_type m)) [
  | inl e ↦
      let h = validate_physical_listing-IsShipped c item l.shipping_options (rw e at done) in
      record { shipped = inr h; bare = inl e }
  | inr e ↦ record { shipped = inl e; bare = inr (bare_crypto c m item l e done) }
]

pub check_format-kept :
    (c : Libs) (m : Metadata) (item : ListingItem) {left : ListingItem}
    → check_format c m item ≡ ok left
    → (is_market_price m ≡ true) ⊎ (left ≡ item)
unfolding check_format
check_format-kept c m item done = elim (Bool-cases (is_market_price m)) [
  | inl e ↦ inl e
  | inr e ↦ inr (sym (ok_injective (rw e at done)))
]

pub check_vendor-IsGenuine :
    (c : Keys) (id : PbId) {key : Bytes}
    → check_vendor c id ≡ ok key
    → (g : IsGenuine c id) × (g.identity ≡ key)
unfolding check_vendor
check_vendor-IsGenuine c id done =
    let (_, k0) = fail_if-ok (ltb Limits.sentence (len id.handle)) _ _ done in
    let (pubkeys, hp, k) = search-ok validation_error id.pubkeys _ k0 in
    let (identity, hi, k1) = search-ok validation_error (c.identity_key pubkeys.identity) _ k in
    let (pid, hd, k2) = external-ok (c.peer_id_of identity) _ k1 in
    let (same, k3) = fail_if-ok (not (str_eq pid id.peer_id)) _ _ k2 in
    let (_, k4) = fail_if-ok (not (length pubkeys.escrow == 33)) _ _ k3 in
    let (escrow, he, k5) = search-ok validation_error (c.escrow_key pubkeys.escrow) _ k4 in
    let (sig, hs, k6) = search-ok validation_error (c.parse_signature id.sig) _ k5 in
    let (signed, k7) = fail_if-ok (not (c.verify_hash sig (c.sum_text id.peer_id) escrow)) _ _ k6 in
    (
      record {
        pubkeys = pubkeys;
        identity = identity;
        escrow = escrow;
        signature = sig;
        has_pubkeys = hp;
        is_identity = hi;
        is_peer =
            hd ∙ ap {B = Option Text} (λ t. some t) ((eq_iff pid id.peer_id).0 (test_of _ same));
        is_escrow = he;
        is_signature = hs;
        signed = test_of _ signed;
      },
      ok_injective k7,
    )

pub check_listing_signature-ok :
    (c : Libs) (key : Bytes) (l : Listing) (sig : Bytes)
    → check_listing_signature c key l sig ≡ ok tt
    → (ser : Bytes) × (c.marshal l ≡ some ser) × (Keys.verify c.keys key ser sig ≡ some true)
unfolding check_listing_signature
check_listing_signature-ok c key l sig done =
    let (ser, hser, k) = external-ok (c.marshal l) _ done in
    let (valid, hvalid, k1) = external-ok (Keys.verify c.keys key ser sig) _ k in
    (ser, hser, hvalid ∙ ap {B = Option Bool} (λ b. some b) (passed valid k1))
