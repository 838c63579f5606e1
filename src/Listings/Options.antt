-- ===== src/Listings/Options.antt =====
-- core/listings.go: validateListing on the options of an item, their variants and the images.
use openbazaar.Prelude.{
  ℕ, Bool, true, false, Option, none, some, List, [], ◌∷◌, ◌*◌, ◌%◌, ◌^◌, ◌-◌, not, ◌||◌, length,
  ltb, str_eq, if◌then◌else◌,
}
use openbazaar.Prelude.Int.{ℤ, pos, negsuc}
use openbazaar.Exec.{Result, ok, fail_if, validation_error}
use openbazaar.Exec.Results.{◌>>=◌, ◌>>◌}
use openbazaar.Proto.Common.{Text}
use openbazaar.Listings.Defs.{Image, Variant, ListingOption, Libs}
use openbazaar.Listings.Limits
use openbazaar.Listings.Loops.{at_most, present, has_name}

-- The checks of an image whose hashes are set.
unfoldable pub check_image : Libs → Image → Result (Unit {0})
check_image c img = do
  fail_if (not (c.is_cid img.tiny)) validation_error
  fail_if (not (c.is_cid img.small)) validation_error
  fail_if (not (c.is_cid img.medium)) validation_error
  fail_if (not (c.is_cid img.large)) validation_error
  fail_if (not (c.is_cid img.original)) validation_error
  present img.filename
  at_most Limits.filename img.filename

-- A variant may have an image whose texts are all empty.
unfoldable pub is_set : Image → Bool
is_set img =
    not (str_eq img.filename "")
    || not (str_eq img.large "")
    || not (str_eq img.medium "")
    || not (str_eq img.small "")
    || not (str_eq img.tiny "")
    || not (str_eq img.original "")

unfoldable pub check_variant_image : Libs → Option Image → Result (Unit {0})
unfolding check_image is_set
check_variant_image c none = ok tt
check_variant_image c (some img) = if is_set img then check_image c img else ok tt

-- The loop over the variants of an option; it returns the names of `varMap`.
unfoldable pub check_variants : Libs → List Text → List Variant → Result (List Text)
unfolding check_variant_image
check_variants c seen [] = ok seen
check_variants c seen (v ∷ vs) = do
  fail_if (has_name v.name seen) validation_error
  at_most Limits.word v.name
  check_variant_image c v.image
  check_variants c (v.name ∷ seen) vs

-- `optionMap`: each option's name with the names of its variants.
abbrev pub OptionMap : Type 0
OptionMap = List (Text × List Text)

-- `optionMap[name]`
abbrev pub lookup_option : Text → OptionMap → Option (List Text)
lookup_option name [] = none
lookup_option name ((n, vs) ∷ m) = if str_eq n name then some vs else lookup_option name m

abbrev pub is_known : Option (List Text) → Bool
is_known none = false
is_known (some vs) = true

-- A product of two `int`, kept as its 64 bits, and the number that the bits stand for.
unfoldable pub times : ℕ → ℕ → ℕ
times a b = a * b % 2 ^ 64

unfoldable pub int64 : ℕ → ℤ
int64 w = if ltb w (2 ^ 63) then pos w else negsuc (2 ^ 64 - 1 - w)

-- The body of the loop over the options, up to the map's new entry.
unfoldable pub check_option : Libs → OptionMap → ListingOption → Result (List Text)
unfolding check_variants
check_option c options o = do
  fail_if (is_known (lookup_option o.name options)) validation_error
  present o.name
  fail_if (ltb (length o.variants) 2) validation_error
  at_most Limits.word o.name
  at_most Limits.sentence o.description
  fail_if (ltb Limits.list_items (length o.variants)) validation_error
  check_variants c [] o.variants

-- The loop over the options; it returns `optionMap` and `maxCombos`.
unfoldable pub check_all_options :
    Libs → OptionMap → ℕ → List ListingOption → Result (OptionMap × ℕ)
unfolding check_option times
check_all_options c options combos [] = ok (options, combos)
check_all_options c options combos (o ∷ os) = do
  names ← check_option c options o
  check_all_options c ((o.name, names) ∷ options) (times combos (length o.variants)) os
