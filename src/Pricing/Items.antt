-- ===== src/Pricing/Items.antt =====
-- orders/order_open.go: what CalculateOrderTotal does for one item.
use openbazaar.Prelude.{
  Bool, true, false, Option, List, [], ◌∷◌, ◌&&◌, ◌||◌, not, str_eq, ◌==◌, if◌then◌else◌,
}
use openbazaar.Prelude.Int.{ℤ, pos, ◌+ℤ◌, ◌-ℤ◌, ltb_ℤ, leb_ℤ}
use openbazaar.Exec.{
  Result, ok, bind_result, or_external, or_err, or_panic, fail_if, invalid_amount,
  listing_not_found,
}
use openbazaar.Exec.Results.{◌>>=◌, ◌>>◌}
use openbazaar.Proto.Common.{Text, ContractType, physical_good}
use openbazaar.Pricing.Amounts.{◌*ℤ◌}
use openbazaar.Pricing.Defs.{
  Country, Format, fixed_price, market_price, Metadata, ListingItem, Tax, CouponCode, hash,
  discount_code, Discount, no_discount, percent_discount, price_discount, Coupon, Listing, Item,
  Order, Currency, Prices, Sku,
}
use openbazaar.Pricing.Convert.{convert_currency_amount, get_selected_sku}

-- The variables of CalculateOrderTotal. `physical_goods` is the map, the entry put last first.
pub record Running : Type 0 where
  pub order_total : ℤ
  pub sub_total : ℤ
  pub taxes_total : ℤ
  pub discounts_total : ℤ
  pub physical_goods : List (Text × Listing)

-- The total of an item, and what has been added up of the discounts or of the taxes.
pub record Sums : Type 0 where
  pub item_total : ℤ
  pub added : ℤ

abbrev pub add_to_both : Sums → ℤ → Sums
add_to_both s d = record { item_total = s.item_total +ℤ d; added = s.added +ℤ d }

-- A branch of the price: the total of one item, and the quantity it is multiplied by.
pub record Priced : Type 0 where
  pub total : ℤ
  pub quantity : ℤ

unfoldable pub market_total : Prices → ListingItem → Item → Currency → Result Priced
unfolding convert_currency_amount
market_total c listed item pay = do
  sold ← or_external (c.lookup listed.crypto_listing_currency_code)
  t ← convert_currency_amount c (c.amount item.quantity) sold pay
  ok (record {
    total = t +ℤ c.portion (c.hundredth listed.crypto_listing_price_modifier) t;
    quantity = pos 1;
  })

unfoldable pub fixed_total : Prices → ListingItem → Item → Currency → Currency → Result Priced
unfolding convert_currency_amount
fixed_total c listed item pricing pay = do
  t ← convert_currency_amount c (c.amount listed.price) pricing pay
  ok (record { total = t; quantity = c.amount item.quantity })

unfoldable pub base_total :
    Prices → Format → ListingItem → Item → Currency → Currency → Result Priced
unfolding market_total fixed_total
base_total c market_price listed item pricing pay = market_total c listed item pay
base_total c fixed_price listed item pricing pay = fixed_total c listed item pricing pay

unfoldable pub surcharged : Prices → ListingItem → Item → Currency → Currency → ℤ → Result ℤ
unfolding get_selected_sku convert_currency_amount
surcharged c listed item pricing pay total = do
  sku ← get_selected_sku c listed item.options
  extra ← convert_currency_amount c (c.amount (Sku.surcharge sku)) pricing pay
  ok (total +ℤ extra)

-- The getters of the oneofs.
abbrev pub get_discount_code : CouponCode → Text
get_discount_code (discount_code t) = t
get_discount_code _ = ""

abbrev pub get_hash : CouponCode → Text
get_hash (hash t) = t
get_hash _ = ""

unfoldable pub apply_discount : Prices → Currency → Currency → Discount → Sums → Result Sums
unfolding convert_currency_amount
apply_discount c pricing pay no_discount s = ok s
apply_discount c pricing pay (price_discount t) s =
    if not (str_eq t "") && ltb_ℤ (pos 0) (c.amount t)
    then bind_result (convert_currency_amount c (c.amount t) pricing pay)
        (λ d. ok (record { item_total = s.item_total -ℤ d; added = s.added -ℤ d }))
    else ok s
apply_discount c pricing pay (percent_discount p) s =
    if c.is_positive p
    then ok (add_to_both s (c.portion (c.hundredth (c.negate p)) s.item_total))
    else ok s

-- The coupons of the vendor, for one code of the buyer and its hash.
unfoldable pub apply_coupons :
    Prices → Currency → Currency → Text → Text → List Coupon → Sums → Result Sums
unfolding apply_discount
apply_coupons c pricing pay code h [] s = ok s
apply_coupons c pricing pay code h (v ∷ vs) s =
    (if str_eq code (get_discount_code v.code) || str_eq h (get_hash v.code)
      then apply_discount c pricing pay v.discount s
      else ok s)
    >>= apply_coupons c pricing pay code h vs

unfoldable pub apply_codes :
    Prices → Currency → Currency → List Coupon → List Text → Sums → Result Sums
unfolding apply_coupons
apply_codes c pricing pay coupons [] s = ok s
apply_codes c pricing pay coupons (code ∷ codes) s = do
  h ← or_external (c.hash_of code)
  t ← apply_coupons c pricing pay code h coupons s
  apply_codes c pricing pay coupons codes t

-- The loop over the tax regions follows the pointer to the order's shipping for each region.
unfoldable pub in_region : Option Country → List Country → Result Bool
in_region country [] = ok false
in_region country (r ∷ rs) =
    let rest = in_region country rs in
    bind_result (or_panic country) λ k. if k == r then ok true else rest

unfoldable pub apply_taxes : Prices → Option Country → List Tax → Sums → Result Sums
unfolding in_region
apply_taxes c country [] s = ok s
apply_taxes c country (tax ∷ taxes) s = do
  here ← in_region country tax.tax_regions
  let t = c.portion (c.hundredth tax.percentage) s.item_total
  apply_taxes c country taxes (if here then add_to_both s t else s)

-- The end of the loop's body, once the price of one item is known. The taxes that have been added up,
-- also those of the items before, are multiplied by this item's quantity.
unfoldable pub add_item :
    Prices → Order → Item → Listing → Currency → Currency → Priced → Running → Result Running
unfolding apply_codes apply_taxes
add_item c order item listing pricing pay priced r = do
  d ←
      apply_codes c pricing pay listing.coupons item.coupon_codes
        (record { item_total = priced.total; added = r.discounts_total })
  t ←
      apply_taxes c order.country listing.taxes
        (record { item_total = Sums.item_total d; added = r.taxes_total })
  ok (record {
    order_total = r.order_total +ℤ Sums.item_total t *ℤ priced.quantity;
    sub_total = r.sub_total +ℤ priced.total *ℤ priced.quantity;
    taxes_total = Sums.added t *ℤ priced.quantity;
    discounts_total = Sums.added d;
    physical_goods = r.physical_goods;
  })

abbrev pub is_physical : ContractType → Bool
is_physical physical_good = true
is_physical _ = false

abbrev pub put_physical : Metadata → Item → Listing → Running → Running
put_physical meta item listing r =
    if is_physical meta.contract_type
    then record r { physical_goods = (item.listing_hash, listing) ∷ r.physical_goods }
    else r

-- One turn of the loop over the items.
unfoldable pub price_item : Prices → Order → Item → Running → Result Running
unfolding base_total surcharged add_item
price_item c order item r = do
  fail_if (leb_ℤ (c.amount item.quantity) (pos 0)) invalid_amount
  found ← or_err listing_not_found (c.listing_of item.listing_hash)
  listing ← or_panic found
  meta ← or_panic (Listing.metadata listing)
  code ← or_panic (Metadata.pricing_currency meta)
  pricing ← or_external (c.lookup code)
  coin ← or_panic order.coin
  pay ← or_external (c.lookup coin)
  listed ← or_panic (Listing.item listing)
  base ← base_total c (Metadata.format meta) listed item pricing pay
  total ← surcharged c listed item pricing pay (Priced.total base)
  add_item c order item listing pricing pay (record base { total = total })
      (put_physical meta item listing r)
