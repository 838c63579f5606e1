-- ===== src/Processor/Opening.antt =====
-- orders/order_open.go: processOrderOpenMessage.
use openbazaar.Prelude.{
  Bool, true, Option, none, some, ◌∷◌, [], ◌++◌, ◌&&◌, not, is_some, str_eq, if◌then◌else◌,
}
use openbazaar.Exec.{
  Error, ok, external, or_external, or_panic, Exec, pure, lift, gets, modify, raise, ◌>>=◌, ◌>>◌,
}
use openbazaar.Proto.Common.{Text, PbId}
use openbazaar.Proto.Net
use openbazaar.Proto.Net.{OrderMessage}
use openbazaar.Proto.Orders.{OrderOpen, Payment, reject_validation_error}
use openbazaar.Proto.Codec.{open_kind, reject_kind}
use openbazaar.Order.Defs.{OrderRole, role_buyer, role_vendor, is_role_vendor}
use openbazaar.Order.Put.{put_message}
use openbazaar.Processor.Events.{new_order, sale_of}
use openbazaar.Processor.Env.{Env, World, on_order, reliably_send}
use openbazaar.Processor.Guards.{seen_before}
use openbazaar.Processor.Payments.{own_message, carry}

-- The reject that a vendor sends to the buyer and saves, when an order does not validate.
unfoldable pub send_validation_reject : Env → Text → Error → Exec World (Unit {0})
unfolding own_message carry
send_validation_reject env peer e = do
  id ← gets (λ w. w.order.id)
  resp ← lift (
      own_message env id Net.MessageType.order_reject reject_kind (record {
        reject_type = reject_validation_error;
        reason = env.error_text e;
        timestamp = env.now;
      }))
  message ← lift (carry env Net.NetType.order resp)
  reliably_send env peer message
  on_order (put_message env.codec resp)

-- The case of an error of validateOrderOpen.
unfoldable pub unless_valid : Env → Text → Option Error → Exec World (Unit {0})
unfolding send_validation_reject
unless_valid env peer none = pure tt
unless_valid env peer (some e) = do
  o ← gets (λ w. w.order)
  if is_role_vendor o.my_role then send_validation_reject env peer e else pure tt

-- A valid order of another node is announced.
unfoldable pub announce : Env → Text → Text → Bool → OrderOpen → Exec World (Unit {0})
announce env peer id valid opened =
    if valid && not (str_eq env.identity peer)
    then (do
      sale ← lift (sale_of id opened)
      modify (λ w. record w { event = some (new_order sale) }))
    else pure tt

-- The event is returned only at the end, so an error returns none.
unfoldable pub forget_event : Exec World (Unit {0}) → Exec World (Unit {0})
forget_event m w =
    let (r, t) = m w in elim r [ ok u ↦ (ok u, t) | other ↦ (other, record t { event = none }) ]

unfoldable pub watch_payment : Env → Payment → Exec World (Unit {0})
watch_payment env p = do
  modify (λ w. record w { order = record (w.order) { payment_address = p.address } })
  wallet ← lift (or_external (env.wallet_for p.coin))
  if wallet.watch_address p.address
      then modify (λ w. record w { watched = w.watched ++ p.address ∷ [] })
      else raise external

-- The role is that of the buyer if the order names this node.
role_of : Env → PbId → OrderRole
role_of env buyer =
    if str_eq (env.pretty env.identity) buyer.peer_id then role_buyer else role_vendor

finish_open : Env → Text → OrderMessage → OrderOpen → Exec World (Unit {0})
unfolding unless_valid announce watch_payment
finish_open env peer m opened = do
  o ← gets (λ w. w.order)
  unless_valid env peer (env.validate_order_open opened o.id o.my_role)
  announce env peer m.order_id (not (is_some (env.validate_order_open opened o.id o.my_role)))
      opened
  on_order (put_message env.codec m)
  p ← lift (or_panic opened.payment)
  watch_payment env p

unfoldable pub process_order_open : Env → Text → OrderMessage → Exec World (Unit {0})
unfolding finish_open role_of forget_event
process_order_open env peer m = forget_event (do
  modify (λ w. record w { order = record (w.order) { id = m.order_id } })
  msg ← lift (or_external (env.codec.unmarshal_any open_kind m.message))
  o ← gets (λ w. w.order)
  dup ← lift (seen_before env.codec open_kind msg o.order_open.serialized)
  if dup then pure tt else (do
    buyer ← lift (or_panic (OrderOpen.buyer_id msg))
    modify
        (λ w. record w { order = record (w.order) { my_role = role_of env buyer; is_open = true } })
    finish_open env peer m msg))
