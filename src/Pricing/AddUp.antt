-- ===== src/Pricing/AddUp.antt =====
-- orders/order_open.go: how the totals of CalculateOrderTotal hang together.
use openbazaar.Prelude.{
  true, false, Option, List, [], ◌∷◌, ◌≡◌, refl, ◌&&◌, ◌||◌, not, str_eq, Bool-cases, inl, inr,
  if◌then◌else◌,
}
use openbazaar.Prelude.Int.{ℤ, pos, ◌+ℤ◌, ◌-ℤ◌, ltb_ℤ, int_laws}
use openbazaar.Exec.{Result, ok, err, panic, bind_result}
use openbazaar.Proto.Common.{Text}
use openbazaar.Pricing.Defs.{
  Country, Discount, no_discount, percent_discount, price_discount, Coupon, Tax, Currency, Prices,
}
use openbazaar.Pricing.Convert.{convert_currency_amount}
use openbazaar.Pricing.Items.{
  Sums, add_to_both, apply_discount, apply_coupons, apply_codes, in_region, apply_taxes,
  get_discount_code, get_hash,
}

-- What a loop adds to the item's total it adds to its sum as well.
abbrev pub IsBalanced : Sums → Sums → Type 0
IsBalanced s t = t.item_total +ℤ s.added ≡ s.item_total +ℤ t.added

add_balanced : (a b d : ℤ) → (a +ℤ d) +ℤ b ≡ a +ℤ (b +ℤ d)
add_balanced a b d = grind int_laws

sub_balanced : (a b d : ℤ) → (a -ℤ d) +ℤ b ≡ a +ℤ (b -ℤ d)
sub_balanced a b d = grind int_laws

trans_balanced : (a b c x y z : ℤ) → b +ℤ x ≡ a +ℤ y → c +ℤ y ≡ b +ℤ z → c +ℤ x ≡ a +ℤ z
trans_balanced a b c x y z h k = grind int_laws

add_to_both-IsBalanced : (s : Sums) (d : ℤ) → IsBalanced s (add_to_both s d)
add_to_both-IsBalanced s d = add_balanced s.item_total s.added d

-- A result, if there is one, is balanced with where it began.
abbrev pub Balances : Sums → Result Sums → Type 0
Balances s (ok t) = IsBalanced s t
Balances s (err e) = Unit
Balances s panic = Unit

Balances-bind :
    (s : Sums) (r : Result Sums) (f : Sums → Result Sums)
    → Balances s r
    → ((t : Sums) → Balances t (f t))
    → Balances s (bind_result r f)
Balances-bind s (err e) f h k = tt
Balances-bind s panic f h k = tt
Balances-bind s (ok t) f h k = go (f t) (k t)
  where
    go : (u : Result Sums) → Balances t u → Balances s u
    go (err e) l = tt
    go panic l = tt
    go (ok u) l = trans_balanced s.item_total t.item_total u.item_total s.added t.added u.added h l

-- A step that may fail first does not matter.
Balances-after :
    {A : Type 0} (s : Sums) (r : Result A) (f : A → Result Sums)
    → ((a : A) → Balances s (f a))
    → Balances s (bind_result r f)
Balances-after s (ok a) f k = k a
Balances-after s (err e) f k = tt
Balances-after s panic f k = tt

module _ (c : Prices) (pricing pay : Currency) where
  apply_discount-Balances :
      (d : Discount) (s : Sums) → Balances s (apply_discount c pricing pay d s)
  unfolding apply_discount
  apply_discount-Balances no_discount s = refl
  apply_discount-Balances (price_discount t) s =
      elim (Bool-cases (not (str_eq t "") && ltb_ℤ (pos 0) (c.amount t))) [
        | inl e ↦ rw e (
            Balances-after s (convert_currency_amount c (c.amount t) pricing pay) _
              (λ d. sub_balanced s.item_total s.added d))
        | inr e ↦ rw e refl
      ]
  apply_discount-Balances (percent_discount p) s = elim (Bool-cases (c.is_positive p)) [
    | inl e ↦ rw e (add_to_both-IsBalanced s _)
    | inr e ↦ rw e refl
  ]

  apply_coupons-Balances :
      (code h : Text) (vs : List Coupon) (s : Sums)
      → Balances s (apply_coupons c pricing pay code h vs s)
  unfolding apply_coupons
  apply_coupons-Balances code h [] s = refl
  apply_coupons-Balances code h (v ∷ vs) s =
      elim (Bool-cases (str_eq code (get_discount_code v.code) || str_eq h (get_hash v.code))) [
        | inl e ↦ rw e (
            Balances-bind s (apply_discount c pricing pay v.discount s) _
              (apply_discount-Balances v.discount s) (apply_coupons-Balances code h vs))
        | inr e ↦ rw e (apply_coupons-Balances code h vs s)
      ]

  pub apply_codes-Balances :
      (coupons : List Coupon) (codes : List Text) (s : Sums)
      → Balances s (apply_codes c pricing pay coupons codes s)
  unfolding apply_codes
  apply_codes-Balances coupons [] s = refl
  apply_codes-Balances coupons (code ∷ codes) s = Balances-after s _ _ λ h.
      Balances-bind s (apply_coupons c pricing pay code h coupons s) _
        (apply_coupons-Balances code h coupons s) (apply_codes-Balances coupons codes)

  pub apply_taxes-Balances :
      (country : Option Country) (taxes : List Tax) (s : Sums)
      → Balances s (apply_taxes c country taxes s)
  unfolding apply_taxes
  apply_taxes-Balances country [] s = refl
  apply_taxes-Balances country (tax ∷ taxes) s =
      Balances-after s (in_region country tax.tax_regions) _ λ here.
        elim here
          as (λ b. Balances s (
            apply_taxes c country taxes (
              if b
              then add_to_both s (c.portion (c.hundredth tax.percentage) s.item_total)
              else s))) [
                | true ↦
                    Balances-bind s (ok (add_to_both s _)) _ (add_to_both-IsBalanced s _)
                      (apply_taxes-Balances country taxes)
                | false ↦ apply_taxes-Balances country taxes s
              ]
