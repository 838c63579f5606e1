-- ===== src/Listings/Terms.antt =====
-- core/listings.go: validateListing on taxes, coupons, moderators and policies.
use openbazaar.Prelude.{
  Bool, true, false, not, ◌&&◌, ◌||◌, ltb, str_eq, is_nil, length, if◌then◌else◌,
}
use openbazaar.Prelude.Int.{ltb_ℤ}
use openbazaar.Exec.{Result, ok, fail_if, or_err, or_panic, validation_error}
use openbazaar.Exec.Results.{◌>>=◌, ◌>>◌}
use openbazaar.Proto.Common.{Text}
use openbazaar.Pricing.Defs.{CouponCode, discount_code, Discount, percent_discount, price_discount}
use openbazaar.Listings.Defs.{Tax, Coupon, Listing, Libs}
use openbazaar.Listings.Limits
use openbazaar.Listings.Loops.{each, at_most, present}
use openbazaar.Listings.Metadata.{is_number}

unfoldable pub check_tax : Libs → Tax → Result (Unit {0})
check_tax c t = do
  present t.tax_type
  at_most Limits.word t.tax_type
  fail_if (is_nil t.tax_regions) validation_error
  fail_if (ltb Limits.country_codes (length t.tax_regions)) validation_error
  fail_if (c.is_zero t.percentage || c.over_hundred t.percentage) validation_error

-- The getters of the oneofs, which give "" and 0 for another member.
abbrev pub discount_code_of : CouponCode → Text
discount_code_of (discount_code t) = t
discount_code_of _ = ""

abbrev pub get_price_discount : Discount → Text
get_price_discount (price_discount t) = t
get_price_discount _ = ""

abbrev pub percent_over_hundred : Libs → Discount → Bool
percent_over_hundred c (percent_discount f) = c.over_hundred f
percent_over_hundred c _ = false

abbrev pub percent_is_zero : Libs → Discount → Bool
percent_is_zero c (percent_discount f) = c.is_zero f
percent_is_zero c _ = true

-- The checks of a price discount that is set; it returns `flag`. The price is nil where it is no number.
unfoldable pub check_discount : Libs → Text → Text → Result Bool
check_discount c price discount = if str_eq discount "" then ok false else (do
  at_most Limits.sentence discount
  d ← or_err validation_error (c.big_int discount)
  n ← or_panic (c.big_int price)
  fail_if (ltb_ℤ n d) validation_error
  ok (is_number 0 d))

unfoldable pub check_coupon : Libs → Text → Coupon → Result (Unit {0})
unfolding check_discount
check_coupon c price k = do
  at_most Limits.coupon_title k.title
  at_most Limits.code (discount_code_of k.code)
  fail_if (percent_over_hundred c k.discount) validation_error
  flag ← check_discount c price (get_price_discount k.discount)
  fail_if (percent_is_zero c k.discount && flag) validation_error

unfoldable pub check_moderator : Libs → Text → Result (Unit {0})
check_moderator c t = fail_if (not (c.is_peer_id t)) validation_error

unfoldable pub check_terms : Libs → Text → Listing → Result (Unit {0})
unfolding check_tax check_coupon check_moderator each
check_terms c price l = do
  fail_if (ltb Limits.list_items (length l.taxes)) validation_error
  each (check_tax c) l.taxes
  fail_if (ltb Limits.list_items (length l.coupons)) validation_error
  each (check_coupon c price) l.coupons
  fail_if (ltb Limits.list_items (length l.moderators)) validation_error
  each (check_moderator c) l.moderators
  at_most Limits.policy l.terms_and_conditions
  at_most Limits.policy l.refund_policy
