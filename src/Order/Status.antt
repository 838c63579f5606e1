-- ===== src/Order/Status.antt =====
-- models/orders.go: what may be done with an order, and whether it is funded and fulfilled.
use openbazaar.Prelude.{
  ℕ, ◌+◌, Bool, true, false, Option, none, some, List, [], ◌∷◌, ◌==◌, ◌&&◌, ◌||◌, not, is_some,
  is_nil, str_eq, if◌then◌else◌,
}
use openbazaar.Prelude.Int.{ℤ, pos, ◌+ℤ◌, leb_ℤ}
use openbazaar.Exec.{Result, ok, err, panic, bind_result, or_panic, message_does_not_exist}
use openbazaar.Proto.Common.{Text}
use openbazaar.Proto.Orders.{
  OrderItem, OrderFulfillment, FulfilledItem, Payment, Method, cancelable,
}
use openbazaar.Proto.Codec.{Codec, SpendInfo, Transaction}
use openbazaar.Order.Defs.{Order, is_role_buyer, is_role_vendor}
use openbazaar.Order.Read.{order_open_message, order_fulfillment_messages, get_transactions}

-- `err != nil && !IsMessageNotExistError(err)`: a message that is missing reads as an empty list.
abbrev pub or_empty : {A : Type 0} → Result (List A) → Result (List A)
or_empty (ok l) = ok l
or_empty (err message_does_not_exist) = ok []
or_empty (err e) = err e
or_empty panic = panic

-- The two loops over transactions and outputs, from `total` on.
unfoldable pub paid_outputs : Text → List SpendInfo → ℤ → ℤ
paid_outputs address [] total = total
paid_outputs address (out ∷ outs) total =
    paid_outputs address outs (if str_eq out.address address then total +ℤ out.amount else total)

unfoldable pub paid_total : Text → List Transaction → ℤ → ℤ
unfolding paid_outputs
paid_total address [] total = total
paid_total address (tx ∷ txs) total = paid_total address txs (paid_outputs address tx.to total)

unfoldable pub funding_total : Codec → Order → Result ℤ
unfolding paid_total
funding_total c o = bind_result (order_open_message c o) λ m. bind_result (or_panic m.payment) λ p.
    bind_result (or_empty (get_transactions c o.transactions))
      λ txs. ok (paid_total p.address txs (pos 0))

unfoldable pub is_funded : Codec → Order → Result Bool
unfolding paid_total
is_funded c o = bind_result (order_open_message c o) λ m. bind_result (or_panic m.payment) λ p.
    bind_result (or_empty (get_transactions c o.transactions))
      λ txs. ok (leb_ℤ (c.new_amount p.amount) (paid_total p.address txs (pos 0)))

-- `for i := range items { m[i] = true }`: the keys of the map, from `i` on.
unfoldable pub indices : ℕ → List OrderItem → List ℕ
indices i [] = []
indices i (x ∷ xs) = i ∷ indices (i + 1) xs

-- `delete(m, k)`
unfoldable pub delete_key : ℕ → List ℕ → List ℕ
delete_key k [] = []
delete_key k (j ∷ js) = if k == j then delete_key k js else j ∷ delete_key k js

unfoldable pub delete_items : List FulfilledItem → List ℕ → List ℕ
unfolding delete_key
delete_items [] m = m
delete_items (f ∷ fs) m = delete_items fs (delete_key f.item_index m)

unfoldable pub delete_fulfilled : List OrderFulfillment → List ℕ → List ℕ
unfolding delete_items
delete_fulfilled [] m = m
delete_fulfilled (f ∷ fs) m = delete_fulfilled fs (delete_items f.fulfillments m)

unfoldable pub is_fulfilled : Codec → Order → Result Bool
unfolding indices delete_fulfilled
is_fulfilled c o = bind_result (order_open_message c o) λ m.
    bind_result (or_empty (order_fulfillment_messages c o))
      λ fs. ok (is_nil (delete_fulfilled fs (indices 0 m.items)))

unfoldable pub under_active_dispute : Order → Bool
under_active_dispute o =
    is_some o.dispute_open.serialized && not (is_some o.dispute_closed.serialized)

-- The condition that CanReject, CanConfirm and CanCancel share, in the order of the code.
unfoldable pub progressed : Order → Bool
progressed o =
    is_some o.order_reject.serialized
    || is_some o.order_cancel.serialized
    || is_some o.order_confirmation.serialized
    || is_some o.order_fulfillments
    || is_some o.order_complete.serialized
    || is_some o.dispute_open.serialized
    || is_some o.dispute_update.serialized
    || is_some o.dispute_closed.serialized
    || is_some o.refunds
    || is_some o.payment_finalized.serialized

abbrev succeeds : {A : Type 0} → Result A → Bool
succeeds (ok a) = true
succeeds _ = false

unfoldable pub can_reject : Codec → Order → Bool
unfolding progressed
can_reject c o =
    if not (succeeds (order_open_message c o))
    then false
    else if not (is_role_vendor o.my_role)
    then false
    else if progressed o
    then false
    else true

unfoldable pub can_confirm : Codec → Order → Bool
unfolding progressed
can_confirm c o =
    if not (succeeds (order_open_message c o))
    then false
    else if not (is_role_vendor o.my_role)
    then false
    else if progressed o
    then false
    else true

unfoldable pub can_cancel : Codec → Order → Bool
unfolding progressed
can_cancel c o =
    if not (succeeds (order_open_message c o))
    then false
    else if not (is_role_buyer o.my_role)
    then false
    else if progressed o
    then false
    else true

abbrev pub is_cancelable : Method → Bool
is_cancelable cancelable = true
is_cancelable _ = false

abbrev pub no_refund : Option Payment → Bool
no_refund none = true
no_refund (some p) = is_cancelable p.method

-- `SerializedOrderComplete != nil || SerializedPaymentFinalized != nil`
abbrev pub completed : Order → Bool
completed o = is_some o.order_complete.serialized || is_some o.payment_finalized.serialized

unfoldable pub can_refund : Codec → Order → Bool
can_refund c o = elim (order_open_message c o) [
  | ok m ↦
      if not (is_role_vendor o.my_role)
      then false
      else if no_refund m.payment
      then false
      else if completed o || is_some o.order_cancel.serialized
      then false
      else true
  | _ ↦ false
]

-- An error of IsFunded means no; its panic is the caller's.
unfoldable pub can_fulfill : Codec → Order → Result Bool
can_fulfill c o =
    if not (succeeds (order_open_message c o))
    then ok false
    else if not (is_role_vendor o.my_role)
    then ok false
    else if not (is_some o.order_confirmation.serialized)
    then ok false
    else elim (is_funded c o) [
      | err e ↦ ok false
      | panic ↦ panic
      | ok funded ↦ if not funded then ok false else elim (is_fulfilled c o) [
        | err e ↦ ok false
        | panic ↦ panic
        | ok fulfilled ↦
            if fulfilled
            then ok false
            else if completed o || is_some o.order_cancel.serialized
            then ok false
            else ok true
      ]
    ]

-- IsFulfilled cannot panic, so the last case is never taken.
abbrev is_true : Result Bool → Bool
is_true (ok b) = b
is_true _ = false

unfoldable pub can_complete : Codec → Order → Bool
unfolding under_active_dispute
can_complete c o =
    if not (succeeds (order_open_message c o))
    then false
    else if not (is_role_buyer o.my_role)
    then false
    else if not (is_true (is_fulfilled c o))
    then false
    else if completed o
    then false
    else if under_active_dispute o
    then false
    else true

unfoldable pub can_dispute : Codec → Order → Bool
unfolding under_active_dispute
can_dispute c o =
    if not (succeeds (order_open_message c o))
    then false
    else if not (is_role_buyer o.my_role) && not (is_role_vendor o.my_role)
    then false
    else if is_role_vendor o.my_role && not (is_true (is_fulfilled c o))
    then false
    else if completed o
    then false
    else if under_active_dispute o
    then false
    else true
