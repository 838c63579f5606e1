-- ===== src/Pricing/Single.antt =====
-- orders/order_open.go: CalculateOrderTotal where one of each item is bought.
use openbazaar.Prelude.{List, [], ◌∷◌, ◌≡◌, refl, subst, All, Bool-cases, inl, inr}
use openbazaar.Prelude.Int.{ℤ, pos, ◌+ℤ◌, leb_ℤ, int_laws}
use openbazaar.Exec.{Result, ok}
use openbazaar.Exec.Invert.{
  bind_result-ok, external-ok, search-ok, pointer-ok, fail_if-ok, ok_injective,
}
use openbazaar.Pricing.Amounts.{*ℤ_one}
use openbazaar.Pricing.Defs.{
  Format, fixed_price, market_price, ListingItem, Listing, Item, Order, Currency, Prices, Metadata,
}
use openbazaar.Pricing.Convert.{convert_currency_amount}
use openbazaar.Pricing.Items.{
  Sums, apply_codes, apply_taxes, Priced, Running, market_total, fixed_total, base_total,
  surcharged, is_physical, put_physical, add_item, price_item,
}
use openbazaar.Pricing.Shipping.{calculate_shipping_total}
use openbazaar.Pricing.Totals.{OrderTotals, start, price_items, calculate_order_total}
use openbazaar.Pricing.AddUp.{IsBalanced, Balances, apply_codes-Balances, apply_taxes-Balances}

abbrev AddsUp : Running → Type 0
AddsUp r = r.order_total ≡ r.sub_total +ℤ r.taxes_total +ℤ r.discounts_total

sums_add_up :
    (o s t d p i j u e : ℤ)
    → o ≡ s +ℤ t +ℤ d
    → i +ℤ d ≡ p +ℤ e
    → j +ℤ t ≡ i +ℤ u
    → o +ℤ j ≡ s +ℤ p +ℤ u +ℤ e
sums_add_up o s t d p i j u e h k l = grind int_laws

Balances-ok : (s t : Sums) (r : Result Sums) → Balances s r → r ≡ ok t → IsBalanced s t
Balances-ok s t r b e = subst (λ x. Balances s x) e b

start-AddsUp : AddsUp start
start-AddsUp = grind int_laws

module _ (c : Prices) (order : Order) where
  add_item-AddsUp :
      (item : Item) (listing : Listing) (pricing pay : Currency) (total : ℤ) (r t : Running)
      → AddsUp r
      → add_item c order item listing pricing pay (record { total = total; quantity = pos 1 }) r
        ≡ ok t
      → AddsUp t
  unfolding add_item
  add_item-AddsUp item listing pricing pay total r t a done =
      let s0 : Sums = record { item_total = total; added = r.discounts_total } in
      let (d, hd, k) =
        bind_result-ok (apply_codes c pricing pay listing.coupons item.coupon_codes s0) _ done in
      let s1 : Sums = record { item_total = d.item_total; added = r.taxes_total } in
      let (u, hu, k1) = bind_result-ok (apply_taxes c order.country listing.taxes s1) _ k in
      let bd : IsBalanced s0 d =
        Balances-ok s0 d _ (apply_codes-Balances c pricing pay listing.coupons item.coupon_codes s0)
          hd in
      let bu : IsBalanced s1 u =
        Balances-ok s1 u _ (apply_taxes-Balances c pricing pay order.country listing.taxes s1) hu in
      subst AddsUp (ok_injective k1) (
        rw (*ℤ_one u.item_total, *ℤ_one total, *ℤ_one u.added)
          (sums_add_up r.order_total r.sub_total r.taxes_total r.discounts_total total d.item_total
            u.item_total u.added d.added a bd bu))

  base_total-single :
      (f : Format) (listed : ListingItem) (item : Item) (pricing pay : Currency) (p : Priced)
      → c.amount item.quantity ≡ pos 1
      → base_total c f listed item pricing pay ≡ ok p
      → p.quantity ≡ pos 1
  unfolding base_total market_total fixed_total
  base_total-single market_price listed item pricing pay p one done =
      let (sold, _, k) = external-ok (c.lookup listed.crypto_listing_currency_code) _ done in
      let (t, _, k1) =
        bind_result-ok (convert_currency_amount c (c.amount item.quantity) sold pay) _ k in
      subst (λ x. Priced.quantity x ≡ pos 1) (ok_injective k1) refl
  base_total-single fixed_price listed item pricing pay p one done =
      let (t, _, k1) =
        bind_result-ok (convert_currency_amount c (c.amount listed.price) pricing pay) _ done in
      subst (λ x. Priced.quantity x ≡ pos 1) (ok_injective k1) one

  put_physical-AddsUp :
      (meta : Metadata) (item : Item) (listing : Listing) (r : Running)
      → AddsUp r
      → AddsUp (put_physical meta item listing r)
  put_physical-AddsUp meta item listing r a = elim (Bool-cases (is_physical meta.contract_type)) [
    | inl e ↦ rw e a
    | inr e ↦ rw e a
  ]

  price_item-AddsUp :
      (item : Item) (r t : Running)
      → c.amount item.quantity ≡ pos 1
      → AddsUp r
      → price_item c order item r ≡ ok t
      → AddsUp t
  unfolding price_item
  price_item-AddsUp item r t one a done =
      let (_, k0) = fail_if-ok (leb_ℤ (c.amount item.quantity) (pos 0)) _ _ done in
      let (found, _, k1) = search-ok _ (c.listing_of item.listing_hash) _ k0 in
      let (listing, _, k2) = pointer-ok found _ k1 in
      let (meta, _, k3) = pointer-ok listing.metadata _ k2 in
      let (code, _, k4) = pointer-ok meta.pricing_currency _ k3 in
      let (pricing, _, k5) = external-ok (c.lookup code) _ k4 in
      let (coin, _, k6) = pointer-ok order.coin _ k5 in
      let (pay, _, k7) = external-ok (c.lookup coin) _ k6 in
      let (listed, _, k8) = pointer-ok listing.item _ k7 in
      let (base, hb, k9) = bind_result-ok (base_total c meta.format listed item pricing pay) _ k8 in
      let (total, _, k10) = bind_result-ok (surcharged c listed item pricing pay base.total) _ k9 in
      let q = base_total-single meta.format listed item pricing pay base one hb in
      add_item-AddsUp item listing pricing pay total (put_physical meta item listing r) t
        (put_physical-AddsUp meta item listing r a)
        (subst
          (λ n.
            add_item c order item listing pricing pay (record { total = total; quantity = n })
              (put_physical meta item listing r)
            ≡ ok t)
          q k10)

  price_items-AddsUp :
      (items : List Item) (r t : Running)
      → All (λ item. c.amount (Item.quantity item) ≡ pos 1) items
      → AddsUp r
      → price_items c order items r ≡ ok t
      → AddsUp t
  unfolding price_items
  price_items-AddsUp [] r t ones a done = subst AddsUp (ok_injective done) a
  price_items-AddsUp (item ∷ items) r t ones a done =
      let (u, hu, k) = bind_result-ok (price_item c order item r) _ done in
      price_items-AddsUp items u t ones.1 (price_item-AddsUp item r u ones.0 a hu) k

  with_shipping : (o s t d h : ℤ) → o ≡ s +ℤ t +ℤ d → o +ℤ h ≡ s +ℤ t +ℤ d +ℤ h
  with_shipping o s t d h e = rw e refl

  -- The totals add up where one of each item is bought: if CalculateOrderTotal returns totals for an
  -- order of which each item has the quantity one, the total is the sum of the subtotal, the taxes, the
  -- discounts, which are negative, and the shipping, whatever coupons and taxes apply.
  pub calculate_order_total-AddsUp :
      (t : OrderTotals)
      → All (λ item. c.amount (Item.quantity item) ≡ pos 1) order.items
      → calculate_order_total c order ≡ ok t
      → t.total ≡ t.subtotal +ℤ t.taxes +ℤ t.discounts +ℤ t.shipping
  unfolding calculate_order_total
  calculate_order_total-AddsUp t ones done =
      let (r, hr, k) = bind_result-ok (price_items c order order.items start) _ done in
      let (ship, _, k1) = bind_result-ok (calculate_shipping_total c order r.physical_goods) _ k in
      let a = price_items-AddsUp order.items start r ones start-AddsUp hr in
      subst (λ x. OrderTotals.total x ≡ x.subtotal +ℤ x.taxes +ℤ x.discounts +ℤ x.shipping)
        (ok_injective k1)
        (with_shipping r.order_total r.sub_total r.taxes_total r.discounts_total ship a)
