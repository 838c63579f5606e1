-- ===== src/Listings/Inventory.antt =====
-- core/listings.go: the options and SKUs of a listing that validateListing accepts.
use openbazaar.Prelude.{
  ℕ, Bool, true, false, some, List, [], ◌∷◌, ◌≡◌, sym, subst, ◌≤◌, ◌⊎◌, inl, inr, ◌&&◌, ◌||◌, ltb,
  str_eq, length, exists_in, All, IsApart, len, Bool-cases, arith,
}
use openbazaar.Exec.{ok}
use openbazaar.Exec.Invert.{bind_result-ok, fail_if-ok, ok_injective}
use openbazaar.Proto.Common.{Text}
use openbazaar.Pricing.Defs.{Selection}
use openbazaar.Listings.Defs.{Variant, ListingOption, Libs}
use openbazaar.Listings.Limits
use openbazaar.Listings.Loops.{has_name, run-IsApart}
use openbazaar.Listings.Options.{
  OptionMap, lookup_option, is_known, times, check_variant_image, check_variants, check_option,
  check_all_options,
}

-- The option has the variant of that name.
abbrev pub offers : Selection → ListingOption → Bool
offers s o =
    str_eq (ListingOption.name o) s.option
    && exists_in (λ v. str_eq (Variant.name v) s.variant) (ListingOption.variants o)

check_variants-names :
    (c : Libs) (seen : List Text) (vs : List Variant) {names : List Text}
    → check_variants c seen vs ≡ ok names
    → (t : Text) → has_name t names ≡ true
    → (has_name t seen || exists_in (λ v. str_eq (Variant.name v) t) vs) ≡ true
unfolding check_variants
check_variants-names c seen [] done t h =
    let e : has_name t seen ≡ true =
      subst (λ ns. has_name t ns ≡ true) (sym (ok_injective done)) h in
    ground (arith, e)
check_variants-names c seen (v ∷ vs) done t h =
    let (_, k) = fail_if-ok (has_name v.name seen) _ _ done in
    let (_, k1) = fail_if-ok (ltb Limits.word (len v.name)) _ _ k in
    let (_, _, k2) = bind_result-ok (check_variant_image c v.image) _ k1 in
    ground (arith, check_variants-names c (v.name ∷ seen) vs k2 t h)

-- What the checks of an option find: it has two to thirty variants, each with a name of its own.
pub record IsChoice (o : ListingOption) : Type 0 where
  pub at_least_two : 2 ≤ length o.variants
  pub at_most_thirty : length o.variants ≤ 30
  pub named_apart : IsApart (λ v w. str_eq (Variant.name v) (Variant.name w)) o.variants

variants-IsApart :
    (c : Libs) (vs : List Variant) {names : List Text}
    → check_variants c [] vs ≡ ok names
    → IsApart (λ v w. str_eq (Variant.name v) (Variant.name w)) vs
unfolding check_variants
variants-IsApart c vs {names} done =
    (run-IsApart (λ seen ws. (ns : List Text) × (check_variants c seen ws ≡ ok ns))
      (λ seen w. has_name (Variant.name w) seen) (λ v w. str_eq (Variant.name v) (Variant.name w))
      (λ seen v ws (ns, h).
        let (fresh, k) = fail_if-ok (has_name (Variant.name v) seen) _ _ h in
        let (_, k1) = fail_if-ok (ltb Limits.word (len (Variant.name v))) _ _ k in
        let (_, _, k2) = bind_result-ok (check_variant_image c (Variant.image v)) _ k1 in
        (Variant.name v ∷ seen, fresh, (ns, k2), λ w e. ground (arith, e)))
      [] vs (names, done)).1

-- The checks before those of the variants.
check_option-ok :
    (c : Libs) (m : OptionMap) (o : ListingOption) {names : List Text}
    → check_option c m o ≡ ok names
    → (is_known (lookup_option o.name m) ≡ false)
      × IsChoice o
      × (check_variants c [] o.variants ≡ ok names)
unfolding check_option
check_option-ok c m o done =
    let (fresh, k) = fail_if-ok (is_known (lookup_option o.name m)) _ _ done in
    let (_, k1) = fail_if-ok (str_eq o.name "") _ _ k in
    let (two, k2) = fail_if-ok (ltb (length o.variants) 2) _ _ k1 in
    let (_, k3) = fail_if-ok (ltb Limits.word (len o.name)) _ _ k2 in
    let (_, k4) = fail_if-ok (ltb Limits.sentence (len o.description)) _ _ k3 in
    let (most, k5) = fail_if-ok (ltb Limits.list_items (length o.variants)) _ _ k4 in
    (
      fresh,
      record {
        at_least_two = ground (arith, two);
        at_most_thirty = ground (arith, most);
        named_apart = variants-IsApart c o.variants k5;
      },
      k5,
    )

pub check_all_options-IsChoice :
    (c : Libs) (m : OptionMap) (combos : ℕ) (os : List ListingOption) {made : OptionMap × ℕ}
    → check_all_options c m combos os ≡ ok made
    → All (λ o. IsChoice o) os
unfolding check_all_options
check_all_options-IsChoice c m combos [] done = tt
check_all_options-IsChoice c m combos (o ∷ os) done =
    let (names, h, k) = bind_result-ok (check_option c m o) _ done in
    (
      (check_option-ok c m o h).1,
      check_all_options-IsChoice c ((o.name, names) ∷ m) (times combos (length o.variants)) os k,
    )

pub options-IsApart :
    (c : Libs) (os : List ListingOption) {made : OptionMap × ℕ}
    → check_all_options c [] 1 os ≡ ok made
    → IsApart (λ o p. str_eq (ListingOption.name o) (ListingOption.name p)) os
unfolding check_all_options
options-IsApart c os {made} done =
    (run-IsApart
      (λ (m : OptionMap) ps. (n : ℕ) × (r : OptionMap × ℕ) × (check_all_options c m n ps ≡ ok r))
      (λ m p. is_known (lookup_option (ListingOption.name p) m))
      (λ o p. str_eq (ListingOption.name o) (ListingOption.name p))
      (λ m o ps (n, r, h).
        let (names, ho, k) = bind_result-ok (check_option c m o) _ h in
        (
          (ListingOption.name o, names) ∷ m,
          (check_option-ok c m o ho).0,
          (_, r, k),
          λ p e. ground (arith, e),
        ))
      [] os (1, made, done)).1

-- A variant that the map lists is offered by an option.
pub check_all_options-offers :
    (c : Libs) (m : OptionMap) (combos : ℕ) (os : List ListingOption) {made : OptionMap × ℕ}
    → check_all_options c m combos os ≡ ok made
    → (s : Selection) {vs : List Text} → lookup_option s.option made.0 ≡ some vs
    → has_name s.variant vs ≡ true
    → (lookup_option s.option m ≡ some vs) ⊎ (exists_in (offers s) os ≡ true)
unfolding check_all_options
check_all_options-offers c m combos [] done s {vs} h e =
    inl (subst (λ r. lookup_option s.option (r.0) ≡ some vs) (sym (ok_injective done)) h)
check_all_options-offers c m combos (o ∷ os) done s {vs} h e =
    let (names, ho, k) = bind_result-ok (check_option c m o) _ done in
    elim (check_all_options-offers c ((o.name, names) ∷ m) (times combos (length o.variants)) os k s
      h e) [
        | inr there ↦ inr (ground (arith, there))
        | inl here ↦ elim (Bool-cases (str_eq o.name s.option)) [
          | inr other ↦ inl (rw other at here)
          | inl same ↦
              let eq : some names ≡ some vs = rw same at here in
              let lists : has_name s.variant names ≡ true = cc in
              let offered =
                check_variants-names c [] o.variants (check_option-ok c m o ho).2 s.variant lists in
              inr (ground (arith, same, offered))
        ]
      ]
