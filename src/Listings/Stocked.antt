-- ===== src/Listings/Stocked.antt =====
-- core/listings.go: the SKUs of a listing that validateListing accepts.
use openbazaar.Prelude.{
  ℕ, Bool, true, false, Option, none, some, List, [], ◌∷◌, ◌≡◌, inl, inr, ◌&&◌, not, ltb, ◌==◌,
  str_eq, length, len, exists_in, All, IsApart, is_nil, arith,
}
use openbazaar.Prelude.Int.{pos, ltb_ℤ}
use openbazaar.Exec.{ok, validation_error}
use openbazaar.Exec.Invert.{bind_result-ok, search-ok, external-ok, fail_if-ok, ok_injective}
use openbazaar.Validation.Valid.{passed}
use openbazaar.Proto.Common.{Text}
use openbazaar.Pricing.Defs.{Selection}
use openbazaar.Listings.Defs.{ListingOption, Sku, ListingItem, Libs}
use openbazaar.Listings.Limits
use openbazaar.Listings.Loops.{each, each-ok, All-map, has_name, run-IsApart}
use openbazaar.Listings.Options.{OptionMap, lookup_option, int64, check_all_options}
use openbazaar.Listings.Skus.{check_selection, check_sku, check_skus, check_inventory}
use openbazaar.Listings.Inventory.{
  offers, IsChoice, check_all_options-IsChoice, options-IsApart, check_all_options-offers,
}

-- A SKU selects as often as there are options, and only variants that the options have.
pub record IsStocked (options : List ListingOption) (s : Sku) : Type 0 where
  pub counted : length s.selections ≡ length options
  pub offered : All (λ sel. exists_in (offers sel) options ≡ true) s.selections

-- The selections have the same JSON.
abbrev same_text : Option Text → Option Text → Bool
same_text (some f) (some g) = str_eq f g
same_text _ _ = false

abbrev pub same_form : Libs → Sku → Sku → Bool
same_form c s t = same_text (c.json s.selections) (c.json t.selections)

-- The options and the SKUs of an item.
pub record IsInventory (c : Libs) (item : ListingItem) : Type 0 where
  pub choices : All (λ o. IsChoice o) item.options
  pub options_named_apart :
      IsApart (λ o p. str_eq (ListingOption.name o) (ListingOption.name p)) item.options
  pub stocked : All (λ s. IsStocked item.options s) item.skus
  pub skus_apart : IsApart (same_form c) item.skus

abbrev seen_form : Libs → List Text → Sku → Bool
seen_form c seen s = elim (c.json s.selections) [ none ↦ false | some f ↦ has_name f seen ]

check_selection-offers :
    (c : Libs) (options : List ListingOption) (made : OptionMap × ℕ)
    → check_all_options c [] 1 options ≡ ok made
    → (s : Selection) → check_selection made.0 s ≡ ok tt
    → exists_in (offers s) options ≡ true
unfolding check_selection
check_selection-offers c options made h s done =
    let (vs, hv, k) = search-ok validation_error (lookup_option s.option made.0) _ done in
    elim (check_all_options-offers c [] 1 options h s hv (passed (has_name s.variant vs) k)) [
      | inl e ↦ cc
      | inr e ↦ e
    ]

-- One turn of the loop: its form is new, and its selections pass.
check_sku-ok :
    (c : Libs) (m : OptionMap) (count combos : ℕ) (seen : List Text) (s : Sku) {form : Text}
    → check_sku c m count combos seen s ≡ ok form
    → (c.json s.selections ≡ some form)
      × (has_name form seen ≡ false)
      × (length s.selections ≡ count)
      × All (λ sel. check_selection m sel ≡ ok tt) s.selections
unfolding check_sku
check_sku-ok c m count combos seen s done =
    let (_, k) = fail_if-ok (ltb_ℤ (pos 1) (int64 combos) && is_nil s.selections) _ _ done in
    let (_, k1) = fail_if-ok (ltb Limits.word (len s.product_id)) _ _ k in
    let (form, hf, k2) = external-ok (c.json s.selections) _ k1 in
    let (fresh, k3) = fail_if-ok (has_name form seen) _ _ k2 in
    let (count_ok, k4) = fail_if-ok (not (length s.selections == count)) _ _ k3 in
    let (_, h, k5) = bind_result-ok (each (check_selection m) s.selections) _ k4 in
    let e = ok_injective k5 in
    (cc, cc, ground (arith, count_ok), each-ok (check_selection m) s.selections h)

check_skus-IsStocked :
    (c : Libs) (options : List ListingOption) (made : OptionMap × ℕ) (combos : ℕ)
    → check_all_options c [] 1 options ≡ ok made
    → (seen : List Text) (ss : List Sku)
    → check_skus c made.0 (length options) combos seen ss ≡ ok tt
    → All (λ s. IsStocked options s) ss
unfolding check_skus
check_skus-IsStocked c options made combos h seen [] done = tt
check_skus-IsStocked c options made combos h seen (s ∷ ss) done =
    let (form, hs, k) = bind_result-ok (check_sku c made.0 (length options) combos seen s) _ done in
    let (_, _, counted, all) = check_sku-ok c made.0 (length options) combos seen s hs in
    (
      record {
        counted = counted;
        offered =
            All-map (λ sel. check_selection made.0 sel ≡ ok tt)
              (λ sel. exists_in (offers sel) options ≡ true)
              (check_selection-offers c options made h) s.selections all;
      },
      check_skus-IsStocked c options made combos h (form ∷ seen) ss k,
    )

skus_lem :
    (c : Libs) (m : OptionMap) (count combos : ℕ) (ss : List Sku)
    → check_skus c m count combos [] ss ≡ ok tt
    → IsApart (same_form c) ss
unfolding check_skus
skus_lem c m count combos ss done =
    (run-IsApart (λ seen ts. check_skus c m count combos seen ts ≡ ok tt) (seen_form c)
      (same_form c)
      (λ seen s ts h.
        let (form, hs, k) = bind_result-ok (check_sku c m count combos seen s) _ h in
        let (hf, fresh, _, _) = check_sku-ok c m count combos seen s hs in
        (form ∷ seen, ground (arith, hf, fresh), k, λ t. later seen s t form hf))
      [] ss done).1
  where
    later :
        (seen : List Text) (s t : Sku) (form : Text)
        → c.json s.selections ≡ some form
        → seen_form c (form ∷ seen) t ≡ false
        → (seen_form c seen t ≡ false) × (same_form c s t ≡ false)
    later seen s t form hf e = ground (arith, hf, e)

-- The checks of the options and the SKUs find what IsInventory says.
pub check_inventory-IsInventory :
    (c : Libs) (item : ListingItem) → check_inventory c item ≡ ok tt → IsInventory c item
unfolding check_inventory
check_inventory-IsInventory c item done =
    let (made, h, k) = bind_result-ok (check_all_options c [] 1 item.options) _ done in
    let (_, k1) = fail_if-ok (ltb_ℤ (int64 made.1) (pos (length item.skus))) _ _ k in
    record {
      choices = check_all_options-IsChoice c [] 1 item.options h;
      options_named_apart = options-IsApart c item.options h;
      stocked = check_skus-IsStocked c item.options made made.1 h [] item.skus k1;
      skus_apart = skus_lem c made.0 (length item.options) made.1 item.skus k1;
    }
