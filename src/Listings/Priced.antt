-- ===== src/Listings/Priced.antt =====
-- core/listings.go: the price, taxes, coupons and moderators of a listing that validateListing accepts.
use openbazaar.Prelude.{
  Bool, true, false, some, ◌≡◌, ◌⊎◌, inl, inr, ◌||◌, ltb, str_eq, eq_iff, length, len, All, is_nil,
  Bool-cases, arith,
}
use openbazaar.Prelude.Int.{ℤ, ltb_ℤ}
use openbazaar.Exec.{ok, validation_error}
use openbazaar.Exec.Invert.{bind_result-ok, fail_if-ok, search-ok, pointer-ok}
use openbazaar.Validation.Valid.{passed, fail_if-false}
use openbazaar.Proto.Common.{Text}
use openbazaar.Listings.Defs.{Metadata, ListingItem, Tax, Coupon, Listing, Libs}
use openbazaar.Listings.Limits
use openbazaar.Listings.Loops.{each, each-ok, All-map}
use openbazaar.Listings.Metadata.{is_number, is_crypto_type, is_classified_type}
use openbazaar.Listings.Items.{check_price}
use openbazaar.Listings.Terms.{
  check_tax, discount_code_of, get_price_discount, percent_over_hundred, check_discount,
  check_coupon, check_moderator, check_terms,
}

-- What is sold for money has a price that is a number other than zero.
abbrev pub IsPriced : Libs → Metadata → Text → Type 0
IsPriced c m price =
    (is_crypto_type m ≡ true)
    ⊎ ((is_classified_type m ≡ true)
        ⊎ (n : ℤ) × (c.big_int price ≡ some n) × (is_number 0 n ≡ false))

pub check_price-IsPriced :
    (c : Libs) (m : Metadata) (item : ListingItem)
    → check_price c m item ≡ ok tt
    → IsPriced c m item.price
unfolding check_price
check_price-IsPriced c m item done = elim (Bool-cases (is_crypto_type m)) [
  | inl e ↦ inl e
  | inr e ↦ elim (Bool-cases (is_classified_type m)) [
    | inl l ↦ inr (inl l)
    | inr l ↦
        let (n, hn, k) = pointer-ok (c.big_int item.price) _ (rw (e, l) at done) in
        inr (inr (n, hn, fail_if-false (is_number 0 n) k))
  ]
]

-- A tax is for some region, and above zero and not above a hundred percent, as far as comparing floats
-- tells.
abbrev pub IsLevied : Libs → Tax → Type 0
IsLevied c t =
    (is_nil t.tax_regions ≡ false)
    × (c.is_zero t.percentage ≡ false)
    × (c.over_hundred t.percentage ≡ false)

-- A coupon takes off no more than the price.
abbrev pub IsDeductible : Libs → Text → Coupon → Type 0
IsDeductible c price k =
    (percent_over_hundred c k.discount ≡ false)
    × ((get_price_discount k.discount ≡ "")
        ⊎ (n : ℤ) × (d : ℤ) × (c.big_int price ≡ some n)
          × (c.big_int (get_price_discount k.discount) ≡ some d)
          × (ltb_ℤ n d ≡ false))

check_tax-IsLevied : (c : Libs) (t : Tax) → check_tax c t ≡ ok tt → IsLevied c t
unfolding check_tax
check_tax-IsLevied c t done =
    let (_, k) = fail_if-ok (str_eq t.tax_type "") _ _ done in
    let (_, k1) = fail_if-ok (ltb Limits.word (len t.tax_type)) _ _ k in
    let (somewhere, k2) = fail_if-ok (is_nil t.tax_regions) _ _ k1 in
    let (_, k3) = fail_if-ok (ltb Limits.country_codes (length t.tax_regions)) _ _ k2 in
    let bounded = fail_if-false (c.is_zero t.percentage || c.over_hundred t.percentage) k3 in
    (somewhere, ground (arith, bounded), ground (arith, bounded))

check_discount-ok :
    (c : Libs) (price discount : Text) {flag : Bool}
    → check_discount c price discount ≡ ok flag
    → (discount ≡ "")
      ⊎ (n : ℤ) × (d : ℤ) × (c.big_int price ≡ some n)
        × (c.big_int discount ≡ some d)
        × (ltb_ℤ n d ≡ false)
unfolding check_discount
check_discount-ok c price discount done = elim (Bool-cases (str_eq discount "")) [
  | inl e ↦ inl ((eq_iff discount "").0 e)
  | inr e ↦
      let (_, k) = fail_if-ok (ltb Limits.sentence (len discount)) _ _ (rw e at done) in
      let (d, hd, k1) = search-ok validation_error (c.big_int discount) _ k in
      let (n, hn, k2) = pointer-ok (c.big_int price) _ k1 in
      let (low, _) = fail_if-ok (ltb_ℤ n d) _ _ k2 in inr (n, d, hn, hd, low)
]

check_coupon-IsDeductible :
    (c : Libs) (price : Text) (k : Coupon) → check_coupon c price k ≡ ok tt → IsDeductible c price k
unfolding check_coupon
check_coupon-IsDeductible c price k done =
    let (_, k1) = fail_if-ok (ltb Limits.coupon_title (len k.title)) _ _ done in
    let (_, k2) = fail_if-ok (ltb Limits.code (len (discount_code_of k.code))) _ _ k1 in
    let (low, k3) = fail_if-ok (percent_over_hundred c k.discount) _ _ k2 in
    let (_, hd, _) = bind_result-ok (check_discount c price (get_price_discount k.discount)) _ k3 in
    (low, check_discount-ok c price (get_price_discount k.discount) hd)

check_moderator-ok : (c : Libs) (t : Text) → check_moderator c t ≡ ok tt → c.is_peer_id t ≡ true
unfolding check_moderator
check_moderator-ok c t done = passed (c.is_peer_id t) done

-- The terms of a listing whose item has the price.
pub record IsTermed (c : Libs) (price : Text) (l : Listing) : Type 0 where
  pub levied : All (IsLevied c) l.taxes
  pub deductible : All (IsDeductible c price) l.coupons
  pub peers : All (λ t. c.is_peer_id t ≡ true) l.moderators

pub check_terms-IsTermed :
    (c : Libs) (price : Text) (l : Listing) → check_terms c price l ≡ ok tt → IsTermed c price l
unfolding check_terms
check_terms-IsTermed c price l done =
    let (_, k) = fail_if-ok (ltb Limits.list_items (length l.taxes)) _ _ done in
    let (_, ht, k1) = bind_result-ok (each (check_tax c) l.taxes) _ k in
    let (_, k2) = fail_if-ok (ltb Limits.list_items (length l.coupons)) _ _ k1 in
    let (_, hc, k3) = bind_result-ok (each (check_coupon c price) l.coupons) _ k2 in
    let (_, k4) = fail_if-ok (ltb Limits.list_items (length l.moderators)) _ _ k3 in
    let (_, hm, _) = bind_result-ok (each (check_moderator c) l.moderators) _ k4 in
    record {
      levied =
          All-map (λ t. check_tax c t ≡ ok tt) (IsLevied c) (check_tax-IsLevied c) l.taxes
            (each-ok (check_tax c) l.taxes ht);
      deductible =
          All-map (λ k. check_coupon c price k ≡ ok tt) (IsDeductible c price)
            (check_coupon-IsDeductible c price) l.coupons
            (each-ok (check_coupon c price) l.coupons hc);
      peers =
          All-map (λ t. check_moderator c t ≡ ok tt) (λ t. c.is_peer_id t ≡ true)
            (check_moderator-ok c) l.moderators (each-ok (check_moderator c) l.moderators hm);
    }
