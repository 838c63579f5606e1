-- ===== src/Pricing/Charges.antt =====
-- orders/order_open.go: what calculateShippingTotalForListings charges.
use openbazaar.Prelude.{
  true, false, List, [], ◌∷◌, ◌≡◌, refl, sym, ◌∙◌, subst, All, Bool-cases, ◌⊎◌, inl, inr, arith,
}
use openbazaar.Prelude.Int.{ℤ, pos, ◌+ℤ◌, ◌-ℤ◌, ◌≤ℤ◌, ltb_ℤ, int_laws}
use openbazaar.Pricing.Amounts.{◌*ℤ◌}
use openbazaar.Pricing.Defs.{Float, Prices}
use openbazaar.Pricing.Convert.{calculate_shipping_tax}
use openbazaar.Pricing.Shipping.{ItemRates, highest, secondaries, many_items_total, rates_total}

-- One of the list.
abbrev pub IsOneOf : ItemRates → List ItemRates → Type 0
IsOneOf r [] = ⊥
IsOneOf r (x ∷ xs) = (x ≡ r) ⊎ IsOneOf r xs

-- No element has a higher primary rate, except that all rates below zero count as zero.
abbrev pub IsHighest : ItemRates → List ItemRates → Type 0
IsHighest r xs = All (λ x. (ItemRates.primary x ≤ℤ r.primary) ⊎ (ItemRates.primary x ≤ℤ pos 0)) xs

-- An amount is at most the other one or zero.
abbrev IsBelow : ℤ → ℤ → Type 0
IsBelow a b = (a ≤ℤ b) ⊎ (a ≤ℤ pos 0)

lt-IsBelow : (a b d : ℤ) → ltb_ℤ a b ≡ true → IsBelow b d → IsBelow a d
lt-IsBelow a b d e (inl h) = inl (ground arith)
lt-IsBelow a b d e (inr h) = inr (ground arith)

ge-IsBelow : (a b d : ℤ) → ltb_ℤ a b ≡ false → IsBelow a d → IsBelow b d
ge-IsBelow a b d e (inl h) = inl (ground arith)
ge-IsBelow a b d e (inr h) = inr (ground arith)

highest-first :
    (best : ItemRates) (bound : ℤ) (x : ItemRates) (xs : List ItemRates)
    → ltb_ℤ bound x.primary ≡ true
    → highest best bound (x ∷ xs) ≡ highest x x.primary xs
unfolding highest
highest-first best bound x xs e = rw e refl

highest-next :
    (best : ItemRates) (bound : ℤ) (x : ItemRates) (xs : List ItemRates)
    → ltb_ℤ bound x.primary ≡ false
    → highest best bound (x ∷ xs) ≡ highest best bound xs
unfolding highest
highest-next best bound x xs e = rw e refl

highest-bound :
    (best : ItemRates) (bound : ℤ) (xs : List ItemRates)
    → IsBelow bound best.primary
    → IsBelow bound (highest best bound xs).primary
unfolding highest
highest-bound best bound [] h = h
highest-bound best bound (x ∷ xs) h = elim (Bool-cases (ltb_ℤ bound x.primary)) [
  | inr e ↦ rw (highest-next best bound x xs e) (highest-bound best bound xs h)
  | inl e ↦
      rw (highest-first best bound x xs e)
        (lt-IsBelow bound x.primary _ e (highest-bound x x.primary xs (inl (ground arith))))
]

highest-IsHighest :
    (best : ItemRates) (bound : ℤ) (xs : List ItemRates)
    → IsBelow bound best.primary
    → IsHighest (highest best bound xs) xs
highest-IsHighest best bound [] h = tt
highest-IsHighest best bound (x ∷ xs) h = elim (Bool-cases (ltb_ℤ bound x.primary)) [
  | inl e ↦
      subst (λ r. IsHighest r (x ∷ xs)) (sym (highest-first best bound x xs e))
        (
          highest-bound x x.primary xs (inl (ground arith)),
          highest-IsHighest x x.primary xs (inl (ground arith)),
        )
  | inr e ↦
      subst (λ r. IsHighest r (x ∷ xs)) (sym (highest-next best bound x xs e))
        (
          ge-IsBelow bound x.primary _ e (highest-bound best bound xs h),
          highest-IsHighest best bound xs h,
        )
]

highest-IsOneOf :
    (best : ItemRates) (bound : ℤ) (xs : List ItemRates)
    → (best ≡ highest best bound xs) ⊎ IsOneOf (highest best bound xs) xs
unfolding highest
highest-IsOneOf best bound [] = inl refl
highest-IsOneOf best bound (x ∷ xs) = elim (Bool-cases (ltb_ℤ bound x.primary)) [
  | inl e ↦
      subst (λ r. (best ≡ r) ⊎ IsOneOf r (x ∷ xs)) (sym (highest-first best bound x xs e))
        (inr (highest-IsOneOf x x.primary xs))
  | inr e ↦
      subst (λ r. (best ≡ r) ⊎ IsOneOf r (x ∷ xs)) (sym (highest-next best bound x xs e))
        (elim (highest-IsOneOf best bound xs) [ inl h ↦ inl h | inr h ↦ inr (inr h) ])
]

-- An amount with the tax on it.
abbrev pub charge : Prices → Float → ℤ → ℤ
charge c p a = a +ℤ c.portion p a

-- What it would cost if each piece were charged the secondary rate.
abbrev pub all_secondary : Prices → List ItemRates → ℤ
all_secondary c [] = pos 0
all_secondary c (s ∷ ss) =
    charge c s.shipping_tax_percentage (s.secondary *ℤ s.quantity) +ℤ all_secondary c ss

sum_after : (t a b d : ℤ) → t +ℤ a +ℤ b +ℤ d ≡ t +ℤ (a +ℤ b +ℤ d)
sum_after t a b d = grind int_laws

secondaries-all :
    (c : Prices) (t : ℤ) (xs : List ItemRates) → secondaries c t xs ≡ t +ℤ all_secondary c xs
unfolding secondaries calculate_shipping_tax
secondaries-all c t [] = grind int_laws
secondaries-all c t (s ∷ ss) =
    let a = s.secondary *ℤ s.quantity in
    secondaries-all c (t +ℤ a +ℤ c.portion s.shipping_tax_percentage a) ss
    ∙ sum_after t a (c.portion s.shipping_tax_percentage a) (all_secondary c ss)

swap_rates : (z x s u p v : ℤ) → z ≡ pos 0 +ℤ x → z -ℤ s -ℤ u +ℤ p +ℤ v +ℤ (s +ℤ u) ≡ x +ℤ (p +ℤ v)
swap_rates z x s u p v h = grind int_laws

-- Which rates are charged where several items are shipped: one of the items, whose primary rate is the
-- highest, is charged for one piece its primary instead of its secondary rate, and every other piece
-- is charged its item's secondary rate, each charge with its item's tax. A rate below zero counts as
-- zero in the comparison.
pub rates_total-IsHighest :
    (c : Prices) (s t : ItemRates) (ss : List ItemRates)
    → (best : ItemRates) × IsOneOf best (s ∷ t ∷ ss)
      × IsHighest best (s ∷ t ∷ ss)
      × (rates_total c (s ∷ t ∷ ss) +ℤ charge c best.shipping_tax_percentage best.secondary
          ≡ all_secondary c (s ∷ t ∷ ss) +ℤ charge c best.shipping_tax_percentage best.primary)
unfolding rates_total many_items_total calculate_shipping_tax
rates_total-IsHighest c s t ss =
    let xs : List ItemRates = s ∷ t ∷ ss in
    let best = highest s (pos 0) xs in
    let p = best.shipping_tax_percentage in
    (
      best,
      elim (highest-IsOneOf s (pos 0) xs) [ inl h ↦ inl h | inr h ↦ h ],
      highest-IsHighest s (pos 0) xs (inr (ground arith)),
      swap_rates (secondaries c (pos 0) xs) (all_secondary c xs) best.secondary
          (c.portion p best.secondary) best.primary (c.portion p best.primary)
          (secondaries-all c (pos 0) xs),
    )
