-- ===== src/Commands/Fulfillments.antt =====
-- core/fulfillment.go: FulfillOrder.
use openbazaar.Prelude.{
  ℕ, ◌-◌, ◌%◌, ◌^◌, Bool, true, false, Option, none, some, List, [], ◌∷◌, not, length,
  if◌then◌else◌,
}
use openbazaar.Prelude.Int.{ℤ, pos, negsuc, ltb_ℤ}
use openbazaar.Exec.{
  Result, ok, bind_result, or_external, or_panic, fail_if, Exec, lift, ◌>>=◌, ◌>>◌, no_escrow,
  bad_request,
}
use openbazaar.Proto.Common.{Text}
use openbazaar.Proto.Net.{order_fulfillment}
use openbazaar.Proto.Orders.{OrderOpen, Payment, FulfilledItem, EscrowRelease}
use openbazaar.Proto.Codec.{fulfillment_kind}
use openbazaar.Order.Defs.{Order}
use openbazaar.Order.Read.{order_open_message, buyer, vendor}
use openbazaar.Order.Status.{can_fulfill}
use openbazaar.Processor.Env.{Env, Wallet}
use openbazaar.Processor.Payments.{own_message}
use openbazaar.Processor.Completion.{is_moderated}
use openbazaar.Node.Defs.{find_order}
use openbazaar.Commands.Defs.{
  Delivery, no_delivery, Fulfillment, Commander, Shop, Deal, update, process, send, carry_message,
}
use openbazaar.Commands.Release.{build_escrow_release}
use openbazaar.Commands.Decisions.{read_order}

-- `uint32(i)` of an int
unfoldable pub uint32 : ℤ → ℕ
uint32 (pos n) = n % 2 ^ 32
uint32 (negsuc n) = 2 ^ 32 - 1 - n % 2 ^ 32

unfoldable pub is_delivered : Delivery → Bool
is_delivered no_delivery = false
is_delivered _ = true

unfoldable pub fulfilled_item : Commander → ℕ → Fulfillment → Result FulfilledItem
unfolding uint32 is_delivered
fulfilled_item c items f = bind_result (fail_if (ltb_ℤ (pos items) f.item_index) bad_request) λ _.
    bind_result (fail_if (not (is_delivered f.delivery)) bad_request)
      λ _. ok (record { item_index = uint32 f.item_index; others = c.wire f.note f.delivery })

unfoldable pub fulfilled_items : Commander → ℕ → List Fulfillment → Result (List FulfilledItem)
unfolding fulfilled_item
fulfilled_items c items [] = ok []
fulfilled_items c items (f ∷ fs) =
    let rest = fulfilled_items c items fs in
    bind_result (fulfilled_item c items f) λ x. bind_result rest λ xs. ok (x ∷ xs)

-- The vendor's half of the release of a moderated payment.
unfoldable pub fulfillment_release : Commander → Order → Payment → Result (Option EscrowRelease)
unfolding build_escrow_release
fulfillment_release c o p =
    if is_moderated p.method
    then (bind_result (or_external (c.purse_for p.coin)) λ purse.
        bind_result (or_external purse.new_address) λ to.
          bind_result (fail_if (not (Wallet.is_escrow purse.wallet)) no_escrow) λ _.
            bind_result (or_external (purse.escrow_fee 2))
              λ fee. bind_result (build_escrow_release c o purse to fee) λ r. ok (some r))
    else ok none

-- The transaction of FulfillOrder.
unfoldable pub fulfill_body :
    Commander → Order → OrderOpen → List FulfilledItem → Text → Text → Exec Deal (Unit {0})
unfolding fulfillment_release own_message process send carry_message
fulfill_body c o m items to from = do
  p ← lift (or_panic m.payment)
  release ← lift (fulfillment_release c o p)
  resp ← lift (
      own_message c.env o.id order_fulfillment fulfillment_kind
        (record { fulfillments = items; release_info = release; timestamp = Env.now c.env }))
  message ← lift (carry_message c 0 resp)
  process c from resp
  send c to message

unfoldable pub fulfill_order : Commander → Text → List Fulfillment → Exec Shop (Unit {0})
unfolding find_order update fulfill_body fulfilled_items
fulfill_order c id fs = do
  o ← read_order c id
  m ← lift (order_open_message (Env.codec c.env) o)
  items ← lift (fulfilled_items c (length (OrderOpen.items m)) fs)
  can ← lift (can_fulfill (Env.codec c.env) o)
  lift (fail_if (not can) bad_request)
  to ← lift (buyer (Env.codec c.env) (Env.decode c.env) o)
  from ← lift (vendor (Env.codec c.env) (Env.decode c.env) o)
  update c (fulfill_body c o m items to from)
