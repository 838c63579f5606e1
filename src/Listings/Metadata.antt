-- ===== src/Listings/Metadata.antt =====
-- core/listings.go: validateListing on the slug and the metadata of a listing.
use openbazaar.Prelude.{ℕ, Bool, false, none, some, not, ◌&&◌, ltb, is_nil, length, ◌==◌}
use openbazaar.Prelude.Int.{ℤ, pos, negsuc, ltb_ℤ}
use openbazaar.Exec.{Result, fail_if, or_err, validation_error}
use openbazaar.Exec.Results.{◌>>=◌, ◌>>◌}
use openbazaar.Proto.Common.{Text}
use openbazaar.Listings.Defs.{PricingCurrency, Metadata, Libs}
use openbazaar.Listings.Limits
use openbazaar.Listings.Loops.{each, at_most, present}

abbrev pub is_number : ℕ → ℤ → Bool
is_number n (pos m) = n == m
is_number n (negsuc m) = false

-- Listing.Metadata.ContractType and Format
unfoldable pub is_physical_type : Metadata → Bool
is_physical_type m = is_number 0 m.contract_type

unfoldable pub is_classified_type : Metadata → Bool
is_classified_type m = is_number 3 m.contract_type

unfoldable pub is_crypto_type : Metadata → Bool
is_crypto_type m = is_number 4 m.contract_type

unfoldable pub is_market_price : Metadata → Bool
is_market_price m = is_number 1 m.format

unfoldable pub check_slug : Libs → Text → Result (Unit {0})
check_slug c slug = do
  present slug
  at_most Limits.sentence slug
  fail_if (c.contains slug " ") validation_error
  fail_if (c.contains slug "/") validation_error

unfoldable pub check_currency : Libs → PricingCurrency → Result (Unit {0})
check_currency c p = do
  present p.code
  at_most Limits.word p.code
  divisibility ← or_err validation_error (c.divisibility_of p.code)
  fail_if (not (p.divisibility == divisibility)) validation_error

-- The test that a pricing currency is there, and its checks if it is.
unfoldable pub check_pricing : Libs → Metadata → Result (Unit {0})
unfolding check_currency is_market_price
check_pricing c m = elim m.pricing_currency [
  | none ↦ fail_if (not (is_market_price m)) validation_error
  | some p ↦ check_currency c p
]

unfoldable pub check_metadata : Libs → Metadata → Result (Unit {0})
unfolding check_pricing each
check_metadata c m = do
  fail_if (ltb_ℤ (pos 4) m.contract_type) validation_error
  fail_if (ltb_ℤ (pos 1) m.format) validation_error
  expiry ← or_err validation_error m.expiry
  fail_if (c.is_past expiry) validation_error
  at_most Limits.word m.language
  fail_if (not c.testnet && ltb Limits.escrow_timeout m.escrow_timeout_hours) validation_error
  fail_if (is_nil m.accepted_currencies) validation_error
  fail_if (ltb Limits.list_items (length m.accepted_currencies)) validation_error
  each (at_most Limits.word) m.accepted_currencies
  check_pricing c m
