-- ===== src/Commands/Refunds.antt =====
-- core/refund.go and core/reject.go: RefundOrder and RejectOrder.
use openbazaar.Prelude.{Bool, some, List, [], ◌∷◌, not, ◌&&◌, if◌then◌else◌}
use openbazaar.Prelude.Int.{ℤ, pos, ◌+ℤ◌, ◌-ℤ◌}
use openbazaar.Exec.{
  Result, ok, bind_result, or_external, or_panic, fail_if, Exec, pure, raise, lift, ◌>>=◌, ◌>>◌,
  external, bad_request, wrong_state,
}
use openbazaar.Proto.Common.{Text}
use openbazaar.Proto.Net
use openbazaar.Proto.Net.{OrderMessage, order_reject}
use openbazaar.Proto.Orders.{
  Method, direct, cancelable, moderated, other_method, OrderOpen, Payment, Refund, by_transaction,
  by_release, user_reject,
}
use openbazaar.Proto.Codec.{Codec, reject_kind, refund_kind}
use openbazaar.Order.Defs.{Order}
use openbazaar.Order.Read.{order_open_message, refund_messages, buyer, vendor}
use openbazaar.Order.Status.{is_cancelable, is_funded, funding_total, can_reject, can_refund}
use openbazaar.Processor.Env.{Env}
use openbazaar.Processor.Payments.{own_message, sign_order_message}
use openbazaar.Node.Defs.{find_order}
use openbazaar.Commands.Defs.{
  by_wallet, Purse, Commander, Shop, Deal, Pending, update, begin_wallet, or_roll_back,
  commit_wallet, process, send, settle, carry_message,
}
use openbazaar.Commands.Release.{build_escrow_release}
use openbazaar.Commands.Decisions.{read_order}

unfoldable pub refunded : Codec → List Refund → ℤ → ℤ
refunded c [] total = total
refunded c (r ∷ rs) total = refunded c rs (total +ℤ c.new_amount r.amount)

-- An error of the earlier refunds is ignored.
abbrev pub or_no_refunds : Result (List Refund) → List Refund
or_no_refunds (ok rs) = rs
or_no_refunds _ = []

-- A refund as an order message that is not signed yet.
unfoldable pub refund_message : Commander → Text → Refund → Result OrderMessage
refund_message c id r = bind_result (or_external (Env.marshal_any c.env refund_kind r)) λ any.
    ok (record {
      order_id = id;
      message_type = Net.MessageType.refund;
      message = any;
      signature = [];
    })

-- What was paid and not refunded yet goes back by a payment of the wallet's.
unfoldable pub refund_direct :
    Commander → Order → Purse → OrderOpen → Exec Deal (Pending × OrderMessage)
unfolding refunded refund_message
refund_direct c o purse m = do
  total ← lift (funding_total (Env.codec c.env) o)
  let prev =
      refunded (Env.codec c.env) (or_no_refunds (refund_messages (Env.codec c.env) o)) (pos 0)
  let amount = total -ℤ prev
  txid ← lift (or_external (purse.spend m.refund_address amount))
  msg ← lift (
      refund_message c o.id (record {
        refund_info = by_transaction txid;
        amount = c.show amount;
        timestamp = Env.now c.env;
      }))
  pure (record { purse = purse; txid = txid; spends = by_wallet m.refund_address amount ∷ [] }, msg)

-- A release that the buyer can complete; the refund has no timestamp, and the wallet sends nothing.
unfoldable pub refund_moderated :
    Commander → Order → Purse → OrderOpen → Payment → Result (OrderMessage)
unfolding build_escrow_release refund_message
refund_moderated c o purse m p =
    bind_result
      (build_escrow_release c o purse m.refund_address
        (Codec.new_amount (Env.codec c.env) p.escrow_release_fee))
      λ release.
        refund_message c o.id
          (record { refund_info = by_release release; amount = release.to_amount; timestamp = 0 })

-- The switch of buildRefundMessage.
unfoldable pub refund_by_method :
    Commander → Method → Order → Purse → OrderOpen → Payment → Exec Deal (Pending × OrderMessage)
unfolding refund_direct refund_moderated
refund_by_method c direct o purse m p = refund_direct c o purse m
refund_by_method c moderated o purse m p = do
  msg ← lift (refund_moderated c o purse m p)
  pure (record { purse = purse; txid = ""; spends = [] }, msg)
refund_by_method c cancelable o purse m p = raise external
refund_by_method c (other_method n) o purse m p = raise external

unfoldable pub build_refund_message : Commander → Order → Purse → Exec Deal (Pending × OrderMessage)
unfolding begin_wallet refund_by_method
build_refund_message c o purse = do
  m ← lift (order_open_message (Env.codec c.env) o)
  p ← lift (or_panic m.payment)
  begin_wallet purse
  refund_by_method c (Payment.method p) o purse m p

-- The transaction of RefundOrder.
unfoldable pub refund_body : Commander → Order → OrderOpen → Text → Text → Exec Deal (Unit {0})
unfolding build_refund_message sign_order_message settle carry_message
refund_body c o m to from = do
  p ← lift (or_panic m.payment)
  purse ← lift (or_external (c.purse_for (Payment.coin p)))
  (pending, unsigned) ← build_refund_message c o purse
  resp ← lift (sign_order_message c.env unsigned)
  message ← or_roll_back (some pending) (lift (carry_message c 0 resp))
  settle c (some pending) from resp to message

unfoldable pub refund_order : Commander → Text → Exec Shop (Unit {0})
unfolding find_order update refund_body
refund_order c id = do
  o ← read_order c id
  m ← lift (order_open_message (Env.codec c.env) o)
  to ← lift (buyer (Env.codec c.env) (Env.decode c.env) o)
  from ← lift (vendor (Env.codec c.env) (Env.decode c.env) o)
  lift (fail_if (not (can_refund (Env.codec c.env) o)) wrong_state)
  update c (refund_body c o m to from)

-- The refund that goes with a rejection: the two messages are sent after both were processed.
unfoldable pub reject_and_refund :
    Commander → Order → Payment → Text → Text → Net.NetMessage → Exec Deal (Unit {0})
unfolding build_refund_message sign_order_message process send carry_message
reject_and_refund c o p to from message = do
  purse ← lift (or_external (c.purse_for p.coin))
  (pending, unsigned) ← build_refund_message c o purse
  refund_resp ← lift (sign_order_message c.env unsigned)
  refund_carried ← or_roll_back (some pending) (lift (carry_message c 1 refund_resp))
  or_roll_back (some pending) (process c from refund_resp)
  or_roll_back (some pending) (send c to message)
  or_roll_back (some pending) (send c to refund_carried)
  commit_wallet (some pending)

-- The transaction of RejectOrder.
unfoldable pub reject_body :
    Commander
    → Order
    → Payment
    → Bool
    → Text
    → Text
    → OrderMessage
    → Net.NetMessage
    → Exec Deal (Unit {0})
unfolding reject_and_refund process send
reject_body c o p funded to from resp message = do
  process c from resp
  if funded && not (is_cancelable p.method)
      then reject_and_refund c o p to from message
      else send c to message

unfoldable pub reject_order : Commander → Text → Text → Exec Shop (Unit {0})
unfolding find_order update reject_body own_message carry_message
reject_order c id reason = do
  o ← read_order c id
  lift (fail_if (not (can_reject (Env.codec c.env) o)) bad_request)
  to ← lift (buyer (Env.codec c.env) (Env.decode c.env) o)
  from ← lift (vendor (Env.codec c.env) (Env.decode c.env) o)
  resp ← lift (
      own_message c.env (Order.id o) order_reject reject_kind
        (record { reject_type = user_reject; reason = reason; timestamp = Env.now c.env }))
  message ← lift (carry_message c 0 resp)
  funded ← lift (is_funded (Env.codec c.env) o)
  m ← lift (order_open_message (Env.codec c.env) o)
  p ← lift (or_panic (OrderOpen.payment m))
  update c (reject_body c o p funded to from resp message)
