-- ===== src/Pricing/OneItem.antt =====
-- orders/order_open.go: the branch of calculateShippingTotalForListings for a single item.
use openbazaar.Prelude.{ℕ, zero, suc, ◌≡◌, refl, true, Bool-cases, inl, inr, arith}
use openbazaar.Prelude.{[], ◌∷◌}
use openbazaar.Prelude.Int.{ℤ, pos, negsuc, ◌+ℤ◌, ◌-ℤ◌, ltb_ℤ, int_laws}
use openbazaar.Pricing.Amounts.{◌*ℤ◌, *ℤ_one}
use openbazaar.Pricing.Defs.{Prices}
use openbazaar.Pricing.Convert.{calculate_shipping_tax}
use openbazaar.Pricing.Shipping.{ItemRates, one_item_total, highest, secondaries, many_items_total}

pred_pos : (n : ℕ) → pos (suc n) -ℤ pos 1 ≡ pos n
pred_pos n = grind int_laws

*ℤ_suc : (a : ℤ) (n : ℕ) → a *ℤ pos (suc n) ≡ a *ℤ pos n +ℤ a
unfolding ◌*ℤ◌
*ℤ_suc (pos m) n = grind int_laws
*ℤ_suc (negsuc m) n = grind int_laws

highest_single : (s : ItemRates) → highest s (pos 0) (s ∷ []) ≡ s
unfolding highest
highest_single s = elim (Bool-cases (ltb_ℤ (pos 0) s.primary)) [
  | inl e ↦ rw e refl
  | inr e ↦ rw e refl
]

one_piece : (p x z : ℤ) → z ≡ pos 0 → pos 0 +ℤ p +ℤ z ≡ pos 0 +ℤ x +ℤ z -ℤ x -ℤ z +ℤ p +ℤ z
one_piece p x z h = grind int_laws

more_pieces :
    (p x y z : ℤ)
    → z ≡ pos 0
    → pos 0 +ℤ p +ℤ z +ℤ y +ℤ z ≡ pos 0 +ℤ (y +ℤ x) +ℤ z -ℤ x -ℤ z +ℤ p +ℤ z
more_pieces p x y z h = grind int_laws

more_than_one : (n : ℕ) → ltb_ℤ (pos 1) (pos (suc (suc n))) ≡ true
more_than_one n = ground arith

-- The branch for a single item is the general computation for a list of one item: the two agree where
-- no tax is on the shipping, so that the tax on any amount is zero, and the quantity is positive.
pub one_item_total-many :
    (c : Prices) (s : ItemRates) (n : ℕ)
    → s.quantity ≡ pos (suc n)
    → ((a : ℤ) → c.portion s.shipping_tax_percentage a ≡ pos 0)
    → one_item_total c s ≡ many_items_total c s []
unfolding one_item_total many_items_total secondaries calculate_shipping_tax
one_item_total-many c s zero q free =
    rw (highest_single s, q, *ℤ_one s.secondary, free s.primary, free s.secondary)
      (one_piece s.primary s.secondary (pos 0) refl)
one_item_total-many c s (suc n) q free =
    rw
      (
        highest_single s,
        q,
        more_than_one n,
        pred_pos (suc n),
        *ℤ_suc s.secondary (suc n),
        free s.primary,
        free s.secondary,
        free (s.secondary *ℤ pos (suc n)),
        free (s.secondary *ℤ pos (suc n) +ℤ s.secondary),
      )
      (more_pieces s.primary s.secondary (s.secondary *ℤ pos (suc n)) (pos 0) refl)
