-- ===== src/Validation/Open.antt =====
-- orders/order_open.go: validateOrderOpen.
use openbazaar.Prelude.{
  Bool, Option, some, List, [], ◌∷◌, map, not, str_eq, bytes_eq, is_nil, ◌==◌, length,
  if◌then◌else◌,
}
use openbazaar.Exec.{
  Result, ok, bind_result, or_err, or_external, or_panic, fail_if, validation_error,
}
use openbazaar.Exec.Results.{◌>>=◌, ◌>>◌}
use openbazaar.Proto.Common.{Bytes, Text}
use openbazaar.Order.Defs.{OrderRole, is_role_vendor}
use openbazaar.Validation.Defs.{SkuStock, SaleListing, Payment, Order, Checks}
use openbazaar.Validation.Items.{check_items}

abbrev pub out_of_stock : SkuStock → SkuStock
out_of_stock s = record s { quantity = "0" }

-- The quantities of the SKUs, set to "0".
abbrev pub zeroed : SaleListing → List SkuStock → SaleListing
zeroed l skus = record l { skus = some (map out_of_stock skus) }

-- The vendor has the listing for sale if its bytes are those of his own.
unfoldable pub check_listing : Checks → Option SaleListing → Result (Unit {0})
check_listing c slot = do
  theirs ← or_panic slot
  mine ← or_err validation_error (c.get_listing (SaleListing.slug theirs))
  my_skus ← or_panic (SaleListing.skus mine)
  skus ← or_panic (SaleListing.skus theirs)
  my_ser ← or_external (c.marshal (zeroed mine my_skus))
  ser ← or_external (c.marshal (zeroed theirs skus))
  fail_if (not (bytes_eq my_ser ser)) validation_error

unfoldable pub check_listings : Checks → List (Option SaleListing) → Result (Unit {0})
unfolding check_listing
check_listings c [] = ok tt
check_listings c (l ∷ ls) = check_listing c l >> check_listings c ls

unfoldable pub check_direct : (Text → Option Bool) → Payment → Result (Unit {0})
check_direct has_key p =
    if p.is_direct
    then bind_result (or_external (has_key p.address)) (λ has. fail_if (not has) validation_error)
    else ok tt

unfoldable pub check_as_vendor :
    Checks → OrderRole → (Text → Option Bool) → Payment → Order → Result (Unit {0})
unfolding check_listings check_direct
check_as_vendor c role has_key p order =
    if is_role_vendor role then check_listings c order.listings >> check_direct has_key p else ok tt

unfoldable pub check_rating_keys : Checks → List Bytes → Result (Unit {0})
check_rating_keys c [] = ok tt
check_rating_keys c (k ∷ ks) =
    fail_if (not (c.is_pubkey k)) validation_error >> check_rating_keys c ks

unfoldable pub validate_order_open : Checks → Order → Text → OrderRole → Result (Unit {0})
unfolding check_as_vendor check_items check_rating_keys
validate_order_open c order order_id role = do
  fail_if (is_nil order.listings) validation_error
  payment ← or_err validation_error order.payment
  fail_if (is_nil order.items) validation_error
  fail_if (not order.has_timestamp) validation_error
  fail_if (not order.has_buyer_id) validation_error
  fail_if (is_nil order.rating_keys) validation_error
  has_key ← or_external (c.wallet_for (Payment.coin payment))
  check_as_vendor c role has_key payment order
  timeout ← check_items c order.items 0
  c.validate_buyer_id
  c.validate_payment timeout
  fail_if (not (length order.rating_keys == length order.items)) validation_error
  check_rating_keys c order.rating_keys
  hash ← or_external c.order_hash
  fail_if (not (str_eq hash order_id)) validation_error
