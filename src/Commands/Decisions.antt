-- ===== src/Commands/Decisions.antt =====
-- core/confirm.go, core/cancel.go: ConfirmOrder and CancelOrder.
use openbazaar.Prelude.{Option, none, some, not, if◌then◌else◌}
use openbazaar.Exec.{or_external, or_panic, fail_if, Exec, pure, lift, ◌>>=◌, ◌>>◌, bad_request}
use openbazaar.Proto.Common.{Text}
use openbazaar.Proto.Net.{order_confirmation, order_cancel}
use openbazaar.Proto.Codec.{confirmation_kind, cancel_kind}
use openbazaar.Order.Defs.{Order}
use openbazaar.Order.Read.{order_open_message, buyer, vendor}
use openbazaar.Order.Status.{is_cancelable, can_confirm, can_cancel}
use openbazaar.Processor.Env.{Env}
use openbazaar.Processor.Payments.{own_message}
use openbazaar.Node.Defs.{find_order}
use openbazaar.Commands.Defs.{Commander, Shop, Deal, Pending, update, settle, carry_message}
use openbazaar.Commands.Release.{release_from_cancelable_address}

-- A step before the transaction: it leaves the node alone.
abbrev pub read_order : Commander → Text → Exec Shop Order
read_order c id s = (or_external (find_order id s.node.orders), s)

-- `txid.String()`, where there is a wallet transaction.
abbrev pub txid_of : Option Pending → Text
txid_of none = ""
txid_of (some p) = p.txid

-- The release of a cancelable payment.
unfoldable pub confirm_release : Commander → Order → Exec Deal (Option Pending)
unfolding release_from_cancelable_address
confirm_release c o = do
  m ← lift (order_open_message (Env.codec c.env) o)
  p ← lift (or_panic m.payment)
  if is_cancelable p.method
      then (release_from_cancelable_address c o >>= λ r. pure (some r))
      else pure none

-- The transaction of ConfirmOrder.
unfoldable pub confirm_body : Commander → Order → Text → Text → Exec Deal (Unit {0})
unfolding confirm_release own_message settle carry_message
confirm_body c o to from = do
  pending ← confirm_release c o
  resp ← lift (
      own_message c.env o.id order_confirmation confirmation_kind
        (record { transaction_id = txid_of pending; timestamp = Env.now c.env }))
  message ← lift (carry_message c 0 resp)
  settle c pending from resp to message

unfoldable pub confirm_order : Commander → Text → Exec Shop (Unit {0})
unfolding find_order update confirm_body
confirm_order c id = do
  o ← read_order c id
  lift (fail_if (not (can_confirm (Env.codec c.env) o)) bad_request)
  to ← lift (buyer (Env.codec c.env) (Env.decode c.env) o)
  from ← lift (vendor (Env.codec c.env) (Env.decode c.env) o)
  update c (confirm_body c o to from)

-- CancelOrder from its release on. What comes before the transaction touches the wallet only, so it is
-- put inside.
unfoldable pub cancel_body : Commander → Order → Text → Text → Exec Deal (Unit {0})
unfolding release_from_cancelable_address own_message settle carry_message
cancel_body c o from to = do
  pending ← release_from_cancelable_address c o
  resp ← lift (
      own_message c.env o.id order_cancel cancel_kind
        (record { transaction_id = Pending.txid pending; timestamp = Env.now c.env }))
  message ← lift (carry_message c 0 resp)
  settle c (some pending) from resp to message

unfoldable pub cancel_order : Commander → Text → Exec Shop (Unit {0})
unfolding find_order update cancel_body
cancel_order c id = do
  o ← read_order c id
  lift (fail_if (not (can_cancel (Env.codec c.env) o)) bad_request)
  from ← lift (buyer (Env.codec c.env) (Env.decode c.env) o)
  to ← lift (vendor (Env.codec c.env) (Env.decode c.env) o)
  update c (cancel_body c o from to)
