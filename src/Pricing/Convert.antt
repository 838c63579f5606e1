-- ===== src/Pricing/Convert.antt =====
-- orders/order_open.go: convertCurrencyAmount, getSelectedSku and calculateShippingTax.
use openbazaar.Prelude.{Bool, true, List, [], ◌∷◌, ◌&&◌, not, str_eq, if◌then◌else◌}
use openbazaar.Prelude.Int.{ℤ}
use openbazaar.Exec.{Result, ok, err, or_external, fail_if, validation_error, not_found}
use openbazaar.Exec.Results.{◌>>=◌, ◌>>◌}
use openbazaar.Proto.Common.{Text}
use openbazaar.Pricing.Defs.{Float, Selection, Sku, ListingItem, ItemOption, Currency, Prices}

-- The error is `validation_error` where the payment currency is not a crypto currency.
unfoldable pub convert_currency_amount : Prices → ℤ → Currency → Currency → Result ℤ
convert_currency_amount c value from to = if c.equal from to then ok value else do
  fail_if (not to.is_crypto) validation_error
  rate ← or_external (c.get_rate to.code from.code)
  or_external (c.convert_by rate value from to)

-- A map from the options' names to what was selected: the last one with the name, or the empty text.
unfoldable pub selected : Prices → List ItemOption → Text → Text → Text
selected c [] name found = found
selected c (o ∷ os) name found =
    selected c os name (if str_eq (c.lower o.name) name then c.lower o.value else found)

unfoldable pub matches_all : Prices → List ItemOption → List Selection → Bool
unfolding selected
matches_all c options [] = true
matches_all c options (sel ∷ sels) =
    str_eq (selected c options (c.lower sel.option) "") (c.lower sel.variant)
    && matches_all c options sels

unfoldable pub find_sku : Prices → List ItemOption → List Sku → Result Sku
unfolding matches_all
find_sku c options [] = err not_found
find_sku c options (sku ∷ skus) =
    let rest = find_sku c options skus in
    if matches_all c options sku.selections then ok sku else rest

-- getSelectedSku
unfoldable pub get_selected_sku : Prices → ListingItem → List ItemOption → Result Sku
unfolding find_sku
get_selected_sku c item options =
    if not item.has_options
    then ok (record { selections = []; surcharge = "0" })
    else find_sku c options item.skus

-- For a percentage that is a number; for NaN, big.NewFloat panics.
unfoldable pub calculate_shipping_tax : Prices → Float → ℤ → ℤ
calculate_shipping_tax c percentage rate = c.portion percentage rate
