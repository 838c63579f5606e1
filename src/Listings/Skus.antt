-- ===== src/Listings/Skus.antt =====
-- core/listings.go: validateListing on the SKUs of an item.
use openbazaar.Prelude.{ℕ, List, [], ◌∷◌, not, ◌&&◌, length, is_nil, ◌==◌}
use openbazaar.Prelude.Int.{pos, ltb_ℤ}
use openbazaar.Exec.{Result, ok, fail_if, or_external, or_err, validation_error}
use openbazaar.Exec.Results.{◌>>=◌, ◌>>◌}
use openbazaar.Proto.Common.{Text}
use openbazaar.Pricing.Defs.{Selection}
use openbazaar.Listings.Defs.{Sku, ListingItem, Libs}
use openbazaar.Listings.Limits
use openbazaar.Listings.Loops.{each, at_most, has_name}
use openbazaar.Listings.Options.{OptionMap, lookup_option, int64, check_all_options}

-- The selection is a variant of one of the options.
unfoldable pub check_selection : OptionMap → Selection → Result (Unit {0})
check_selection options s = do
  variants ← or_err validation_error (lookup_option s.option options)
  fail_if (not (has_name s.variant variants)) validation_error

-- The body of the loop over the SKUs; it returns the entry of `comboMap`.
unfoldable pub check_sku : Libs → OptionMap → ℕ → ℕ → List Text → Sku → Result Text
unfolding check_selection each int64
check_sku c options count combos seen s = do
  fail_if (ltb_ℤ (pos 1) (int64 combos) && is_nil s.selections) validation_error
  at_most Limits.word s.product_id
  formatted ← or_external (c.json s.selections)
  fail_if (has_name formatted seen) validation_error
  fail_if (not (length s.selections == count)) validation_error
  each (check_selection options) s.selections
  ok formatted

unfoldable pub check_skus : Libs → OptionMap → ℕ → ℕ → List Text → List Sku → Result (Unit {0})
unfolding check_sku
check_skus c options count combos seen [] = ok tt
check_skus c options count combos seen (s ∷ ss) = do
  formatted ← check_sku c options count combos seen s
  check_skus c options count combos (formatted ∷ seen) ss

-- The options and the SKUs of an item.
unfoldable pub check_inventory : Libs → ListingItem → Result (Unit {0})
unfolding check_all_options check_skus int64
check_inventory c item = do
  made ← check_all_options c [] 1 item.options
  fail_if (ltb_ℤ (int64 made.1) (pos (length item.skus))) validation_error
  check_skus c made.0 (length item.options) made.1 [] item.skus
