-- ===== src/Pricing/Shipping.antt =====
-- orders/order_open.go: calculateShippingTotalForListings.
use openbazaar.Prelude.{
  Option, none, some, List, [], ◌∷◌, ◌&&◌, not, str_eq, ◌==◌, exists_in, if◌then◌else◌,
}
use openbazaar.Prelude.Int.{ℤ, pos, ◌+ℤ◌, ◌-ℤ◌, ltb_ℤ}
use openbazaar.Exec.{
  Result, ok, err, bind_result, or_external, or_err, or_panic, fail_if, invalid_amount, not_found,
}
use openbazaar.Exec.Results.{◌>>=◌, ◌>>◌}
use openbazaar.Proto.Common.{Text}
use openbazaar.Pricing.Amounts.{◌*ℤ◌}
use openbazaar.Pricing.Defs.{
  Float, Country, Metadata, Service, ShippingOption, Tax, Listing, Item, ItemShipping, Order,
  Currency, Prices,
}
use openbazaar.Pricing.Convert.{convert_currency_amount, calculate_shipping_tax}

-- itemShipping
pub record ItemRates : Type 0 where
  pub primary : ℤ
  pub secondary : ℤ
  pub quantity : ℤ
  pub shipping_tax_percentage : Float

-- Lookups in maps that are filled in order, so that the last entry with a key counts.
unfoldable pub find_listing : Text → List (Text × Listing) → Option Listing
find_listing hash [] = none
find_listing hash ((h, l) ∷ rest) =
    let found = find_listing hash rest in if str_eq h hash then some l else found

abbrev pub or_else : {A : Type 0} → Option A → Option A → Option A
or_else none o = o
or_else (some a) o = some a

unfoldable pub find_option : Prices → Text → List ShippingOption → Option ShippingOption
find_option c name [] = none
find_option c name (o ∷ os) =
    or_else (find_option c name os) (if str_eq (c.lower o.name) name then some o else none)

unfoldable pub find_service : Prices → Text → List Service → Option Service
find_service c name [] = none
find_service c name (s ∷ ss) =
    or_else (find_service c name ss) (if str_eq (c.lower s.name) name then some s else none)

-- The second price, where one is given that is positive.
unfoldable pub secondary_total : Prices → Service → Currency → Currency → Result ℤ
unfolding convert_currency_amount
secondary_total c s pricing pay =
    if not (str_eq s.additional_item_price "") && ltb_ℤ (pos 0) (c.amount s.additional_item_price)
    then convert_currency_amount c (c.amount s.additional_item_price) pricing pay
    else ok (pos 0)

-- The last tax on shipping in the country; the pointer to the shipping is not nil here.
unfoldable pub shipping_tax : Prices → Country → List Tax → Float → Float
shipping_tax c country [] found = found
shipping_tax c country (t ∷ ts) found = shipping_tax c country ts (
    if exists_in (λ r. r == country) t.tax_regions && t.tax_shipping
    then c.hundredth t.percentage
    else found)

-- The rates of an item that is shipped with an option that is no local pickup.
unfoldable pub shipped_rates :
    Prices
    → Order
    → Item
    → ItemShipping
    → Listing
    → ShippingOption
    → Currency
    → Currency
    → Result ItemRates
unfolding find_service convert_currency_amount secondary_total shipping_tax
shipped_rates c order item chosen listing option pricing pay = do
  country ← or_panic order.country
  fail_if
      (not (exists_in (λ r. r == country) option.regions)
        && not (exists_in (λ r. r == c.all_countries) option.regions))
      not_found
  service ← or_err not_found (find_service c (c.lower chosen.service) option.services)
  primary ← convert_currency_amount c (c.amount (Service.price service)) pricing pay
  secondary ← secondary_total c service pricing pay
  ok (record {
    primary = primary;
    secondary = secondary;
    quantity = c.amount item.quantity;
    shipping_tax_percentage = shipping_tax c country listing.taxes 0;
  })

unfoldable pub option_rates :
    Prices → Order → Item → Listing → Currency → Currency → Result (Option ItemRates)
unfolding find_option shipped_rates
option_rates c order item listing pricing pay = do
  chosen ← or_panic item.shipping_option
  option ←
      or_err not_found (find_option c (c.lower (ItemShipping.name chosen)) listing.shipping_options)
  if ShippingOption.is_local_pickup option
      then ok none
      else bind_result (shipped_rates c order item chosen listing option pricing pay)
          (λ r. ok (some r))

unfoldable pub listing_rates : Prices → Order → Item → Listing → Result (Option ItemRates)
unfolding option_rates
listing_rates c order item listing = do
  meta ← or_panic listing.metadata
  code ← or_panic (Metadata.pricing_currency meta)
  pricing ← or_external (c.lookup code)
  coin ← or_panic order.coin
  pay ← or_external (c.lookup coin)
  option_rates c order item listing pricing pay

-- One turn of the first loop: the item's rates, or none for a `continue`.
unfoldable pub rates_of : Prices → Order → List (Text × Listing) → Item → Result (Option ItemRates)
unfolding find_listing listing_rates
rates_of c order listings item =
    if str_eq item.quantity ""
    then err invalid_amount
    else elim (find_listing item.listing_hash listings) [
      | none ↦ ok none
      | some listing ↦ listing_rates c order item listing
    ]

abbrev pub maybe_cons : {A : Type 0} → Option A → List A → List A
maybe_cons none xs = xs
maybe_cons (some a) xs = a ∷ xs

unfoldable pub all_rates :
    Prices → Order → List (Text × Listing) → List Item → Result (List ItemRates)
unfolding rates_of
all_rates c order listings [] = ok []
all_rates c order listings (item ∷ items) = do
  r ← rates_of c order listings item
  rs ← all_rates c order listings items
  ok (maybe_cons r rs)

-- An amount with the tax on it.
abbrev pub with_tax : Prices → Float → ℤ → ℤ → ℤ
with_tax c p total rate = total +ℤ rate +ℤ calculate_shipping_tax c p rate

unfoldable pub one_item_total : Prices → ItemRates → ℤ
unfolding calculate_shipping_tax
one_item_total c s =
    let first = with_tax c s.shipping_tax_percentage (pos 0) s.primary in
    if ltb_ℤ (pos 1) s.quantity
    then with_tax c s.shipping_tax_percentage first (s.secondary *ℤ (s.quantity -ℤ pos 1))
    else first

-- `is[i]` of the last loop: the first element with the highest primary rate, among those that have a
-- positive one, or else the first.
unfoldable pub highest : ItemRates → ℤ → List ItemRates → ItemRates
highest best bound [] = best
highest best bound (s ∷ ss) =
    if ltb_ℤ bound s.primary then highest s s.primary ss else highest best bound ss

unfoldable pub secondaries : Prices → ℤ → List ItemRates → ℤ
unfolding calculate_shipping_tax
secondaries c total [] = total
secondaries c total (s ∷ ss) =
    secondaries c (with_tax c s.shipping_tax_percentage total (s.secondary *ℤ s.quantity)) ss

unfoldable pub many_items_total : Prices → ItemRates → List ItemRates → ℤ
unfolding highest secondaries calculate_shipping_tax
many_items_total c s ss =
    let best = highest s (pos 0) (s ∷ ss) in
    let p = best.shipping_tax_percentage in
    with_tax c p
      (secondaries c (pos 0) (s ∷ ss)
        -ℤ best.secondary
        -ℤ calculate_shipping_tax c p best.secondary)
      best.primary

unfoldable pub rates_total : Prices → List ItemRates → ℤ
unfolding one_item_total many_items_total
rates_total c [] = pos 0
rates_total c (s ∷ []) = one_item_total c s
rates_total c (s ∷ t ∷ ss) = many_items_total c s (t ∷ ss)

unfoldable pub calculate_shipping_total : Prices → Order → List (Text × Listing) → Result ℤ
unfolding all_rates rates_total
calculate_shipping_total c order listings =
    bind_result (all_rates c order listings order.items) λ rs. ok (rates_total c rs)
