-- ===== src/Node/Rows.antt =====
-- core/network.go: the orders of a node that handles order messages.
use openbazaar.Prelude.{
  Option, none, some, List, [], ◌∷◌, str_eq, All, Bool-cases, Option-cases, inl, inr,
}
use openbazaar.Exec.{Result, ok, err, panic}
use openbazaar.Proto.Common.{Text}
use openbazaar.Proto.Net.{NetMessage, OrderMessage}
use openbazaar.Order.Defs.{Order}
use openbazaar.Processor.Events.{Event}
use openbazaar.Processor.Env.{Env}
use openbazaar.Processor.Process.{Outcome, process_message_top}
use openbazaar.Machine.Moves.{flags}
use openbazaar.Machine.Invariant.{IsConsistent}
use openbazaar.Machine.Saved.{IsFineRow, process_message_top-IsConsistent}
use openbazaar.Node.Defs.{Node, NodeEnv, find_order, save_order}
use openbazaar.Node.Orders.{
  is_duplicate, is_order_type, begin, end_transaction, save_if, process_order, handle_order,
  send_ack_message, handle_order_message,
}

-- Every order of the database is consistent.
abbrev pub AreConsistent : List Order → Type 0
AreConsistent os = All (λ o. IsConsistent (flags o)) os

pub find_order-Fine :
    (id : Text) (os : List Order) → AreConsistent os → IsFineRow (find_order id os)
unfolding find_order
find_order-Fine id [] h = tt
find_order-Fine id (o ∷ os) h = elim (Bool-cases (str_eq o.id id)) [
  | inl e ↦ rw e h.0
  | inr e ↦ rw e (find_order-Fine id os h.1)
]

save_order-AreConsistent :
    (o : Order) (os : List Order)
    → IsConsistent (flags o)
    → AreConsistent os
    → AreConsistent (save_order o os)
unfolding save_order
save_order-AreConsistent o [] c h = (c, tt)
save_order-AreConsistent o (x ∷ xs) c h = elim (Bool-cases (str_eq x.id o.id)) [
  | inl e ↦ rw e (c, h.1)
  | inr e ↦ rw e (h.0, save_order-AreConsistent o xs c h.1)
]

pub save_if-AreConsistent :
    (row : Option Order) (os : List Order)
    → IsFineRow row
    → AreConsistent os
    → AreConsistent (save_if row os)
save_if-AreConsistent none os c h = h
save_if-AreConsistent (some o) os c h = save_order-AreConsistent o os c h

end-AreConsistent :
    (ne : NodeEnv) (out : Outcome) (r : Result (Option Event)) (n : Node)
    → IsFineRow out.saved
    → AreConsistent n.orders
    → AreConsistent (end_transaction ne out r n).1.orders
end-AreConsistent ne out (ok event) n c h = elim (Bool-cases ne.can_commit) [
  | inl e ↦ rw e (save_if-AreConsistent out.saved n.orders c h)
  | inr e ↦ rw e h
]
end-AreConsistent ne out (err e) n c h = h
end-AreConsistent ne out panic n c h = h

process_order-AreConsistent :
    (env : Env) (ne : NodeEnv) (from : Text) (m : OrderMessage) (n : Node)
    → AreConsistent n.orders
    → AreConsistent (process_order env ne from m n).1.orders
unfolding process_order
process_order-AreConsistent env ne from m n h =
    let out = process_message_top env from m (find_order m.order_id n.orders) (begin n) in
    end-AreConsistent ne out out.result n
      (process_message_top-IsConsistent env from m (find_order m.order_id n.orders) (begin n)
        (find_order-Fine m.order_id n.orders h))
      h

-- A node keeps all its orders consistent: whatever message comes in from whatever peer, with whatever
-- answers of the libraries and the database, if every order of the database was consistent, every order
-- is after handleOrderMessage, also where it returns an error or panics.
pub handle_order_message-AreConsistent :
    (env : Env) (ne : NodeEnv) (from : Text) (m : NetMessage) (n : Node)
    → AreConsistent n.orders
    → AreConsistent (handle_order_message env ne from m n).1.orders
unfolding handle_order_message handle_order send_ack_message
handle_order_message-AreConsistent env ne from m n h = elim (Bool-cases (is_duplicate m n)) [
  | inl e ↦ rw e h
  | inr e ↦ elim (Bool-cases (is_order_type m.net_type)) [
    | inr f ↦ rw (e, f) h
    | inl f ↦ elim (Option-cases (ne.unmarshal_order m.payload)) [
      | inl g ↦ rw (e, f, g) h
      | inr (om, g) ↦ rw (e, f, g) (process_order-AreConsistent env ne from om n h)
    ]
  ]
]
