-- ===== src/Pricing/Totals.antt =====
-- orders/order_open.go: CalculateOrderTotal.
use openbazaar.Prelude.{List, [], ◌∷◌}
use openbazaar.Prelude.Int.{ℤ, pos, ◌+ℤ◌}
use openbazaar.Exec.{Result, ok}
use openbazaar.Exec.Results.{◌>>=◌}
use openbazaar.Pricing.Defs.{Item, Order, Prices}
use openbazaar.Pricing.Items.{Running, price_item}
use openbazaar.Pricing.Shipping.{calculate_shipping_total}

-- models.OrderTotals
pub record OrderTotals : Type 0 where
  pub subtotal : ℤ
  pub shipping : ℤ
  pub discounts : ℤ
  pub taxes : ℤ
  pub total : ℤ

abbrev pub start : Running
start = record {
  order_total = pos 0;
  sub_total = pos 0;
  taxes_total = pos 0;
  discounts_total = pos 0;
  physical_goods = [];
}

unfoldable pub price_items : Prices → Order → List Item → Running → Result Running
unfolding price_item
price_items c order [] r = ok r
price_items c order (item ∷ items) r = price_item c order item r >>= price_items c order items

unfoldable pub calculate_order_total : Prices → Order → Result OrderTotals
unfolding price_items calculate_shipping_total
calculate_order_total c order = do
  r ← price_items c order order.items start
  shipping ← calculate_shipping_total c order (Running.physical_goods r)
  ok (record {
    subtotal = Running.sub_total r;
    shipping = shipping;
    discounts = Running.discounts_total r;
    taxes = Running.taxes_total r;
    total = Running.order_total r +ℤ shipping;
  })
