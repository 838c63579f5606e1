-- ===== src/Order/Payments.antt =====
-- PutTransaction and the sums over the transactions of an order.
use openbazaar.Prelude.{
  some, List, [], ◌∷◌, ◌++◌, ◌≡◌, refl, str_eq, if◌then◌else◌, Bool-cases, inl, inr,
}
use openbazaar.Prelude.Int.{ℤ, pos, ◌+ℤ◌, leb_ℤ, int_laws}
use openbazaar.Exec.{ok}
use openbazaar.Proto.Common.{Text}
use openbazaar.Proto.Orders.{OrderOpen, Payment}
use openbazaar.Proto.Codec.{Codec, SpendInfo, Transaction}
use openbazaar.Order.Defs.{Order}
use openbazaar.Order.Read.{order_open_message, get_transactions}
use openbazaar.Order.Status.{or_empty, paid_outputs, paid_total, funding_total, is_funded}

-- What a transaction's outputs pay to the address.
pub paid_to : Text → List SpendInfo → ℤ
paid_to address [] = pos 0
paid_to address (out ∷ outs) =
    if str_eq out.address address then out.amount +ℤ paid_to address outs else paid_to address outs

pub paid_by_all : Text → List Transaction → ℤ
paid_by_all address [] = pos 0
paid_by_all address (tx ∷ txs) = paid_to address tx.to +ℤ paid_by_all address txs

paid_outputs-eq :
    (a : Text) (outs : List SpendInfo) (t : ℤ) → paid_outputs a outs t ≡ t +ℤ paid_to a outs
unfolding paid_outputs paid_to
paid_outputs-eq a [] t = omega int_laws
paid_outputs-eq a (out ∷ outs) t = elim (Bool-cases (str_eq out.address a)) [
  | inl e ↦ rw e (rw (paid_outputs-eq a outs (t +ℤ out.amount)) (omega int_laws))
  | inr e ↦ rw e (paid_outputs-eq a outs t)
]

pub paid_total-eq :
    (a : Text) (txs : List Transaction) (t : ℤ) → paid_total a txs t ≡ t +ℤ paid_by_all a txs
unfolding paid_total paid_by_all
paid_total-eq a [] t = omega int_laws
paid_total-eq a (tx ∷ txs) t =
    rw paid_outputs-eq (rw (paid_total-eq a txs (t +ℤ paid_to a tx.to)) (omega int_laws))

-- FundingTotal is the sum, over all saved transactions and their outputs, of what is paid to the
-- payment address; and IsFunded says whether that sum reaches the amount that was asked for.
pub funding_total_lem :
    (c : Codec) (o : Order) (m : OrderOpen) (p : Payment) (txs : List Transaction)
    → order_open_message c o ≡ ok m
    → m.payment ≡ some p
    → or_empty (get_transactions c o.transactions) ≡ ok txs
    → (funding_total c o ≡ ok (paid_by_all p.address txs))
      × (is_funded c o ≡ ok (leb_ℤ (c.new_amount p.amount) (paid_by_all p.address txs)))
unfolding funding_total is_funded
funding_total_lem c o m p txs hm hp ht =
    let sum : paid_total p.address txs (pos 0) ≡ paid_by_all p.address txs =
      rw paid_total-eq (omega int_laws) in
    (rw (hm, hp, ht) (rw sum refl), rw (hm, hp, ht) (rw sum refl))

pub paid_by_all-append :
    (a : Text) (txs : List Transaction) (tx : Transaction)
    → paid_by_all a (txs ++ tx ∷ []) ≡ paid_by_all a txs +ℤ paid_to a tx.to
unfolding paid_by_all
paid_by_all-append a [] tx = omega int_laws
paid_by_all-append a (x ∷ xs) tx = rw (paid_by_all-append a xs tx) (omega int_laws)
