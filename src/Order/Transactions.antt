-- ===== src/Order/Transactions.antt =====
-- models/orders.go: PutTransaction, and the transactions that an order holds.
use openbazaar.Prelude.{
  Bool, true, false, Option, none, some, List, [], ◌∷◌, ◌++◌, ◌≡◌, refl, str_eq, exists_in, arith,
  Option-cases, Bool-cases, IsApart, IsApart-append, inl, inr, ◌⊎◌,
}
use openbazaar.Prelude.Int.{◌+ℤ◌, leb_ℤ}
use openbazaar.Exec.{Result, ok, err, duplicate_transaction, external}
use openbazaar.Proto.Common.{Bytes, Text}
use openbazaar.Proto.Orders.{OrderOpen, Payment}
use openbazaar.Proto.Codec.{Codec, IsLawful, Transaction}
use openbazaar.Order.Defs.{Order}
use openbazaar.Order.Read.{order_open_message, get_transactions}
use openbazaar.Order.Put.{put_transaction, read_or}
use openbazaar.Order.Status.{funding_total, is_funded, or_empty}
use openbazaar.Order.Payments.{paid_to, paid_by_all, paid_by_all-append, funding_total_lem}

abbrev pub has_id : Text → List Transaction → Bool
has_id id txs = exists_in (λ t. str_eq (Transaction.txid t) id) txs

-- No two transactions of the list have the same ID.
abbrev pub IsUnique : List Transaction → Type 0
IsUnique = IsApart (λ t u. str_eq (Transaction.txid t) u.txid)

-- The transactions that an order holds: none before the first is put.
abbrev pub Holds : Codec → Order → List Transaction → Type 0
Holds c o txs =
    ((o.transactions ≡ none) × (txs ≡ [])) ⊎ (get_transactions c o.transactions ≡ ok txs)

read_transactions :
    (c : Codec) (txs : List Transaction) (b : Bytes)
    → IsLawful c
    → c.marshal_transactions txs ≡ some b
    → get_transactions c (some b) ≡ ok txs
unfolding get_transactions
read_transactions c txs [] law h = absurd (law.transactions_nonempty txs h)
read_transactions c txs (x ∷ xs) law h = rw (law.transactions_round txs (x ∷ xs) h)

field_holds :
    (c : Codec) (f : Option Bytes) (txs : List Transaction)
    → ((f ≡ none) × (txs ≡ [])) ⊎ (get_transactions c f ≡ ok txs)
    → read_or [] c.unmarshal_transactions f ≡ ok txs
unfolding get_transactions
field_holds c none txs h = ground arith
field_holds c (some []) txs h = ground arith
field_holds c (some (b ∷ bs)) txs h = ground arith

-- A known transaction is refused and the order is unchanged.
put_known :
    (c : Codec) (tx : Transaction) (o : Order) (txs : List Transaction)
    → Holds c o txs
    → has_id tx.txid txs ≡ true
    → put_transaction c tx o ≡ (err duplicate_transaction, o)
unfolding put_transaction
put_known c tx o txs h known = rw (field_holds c o.transactions txs h, known)

-- A new one goes to the end of the list, or the order is unchanged.
put_new :
    (c : Codec) (tx : Transaction) (o : Order) (txs : List Transaction)
    → IsLawful c
    → Holds c o txs
    → has_id tx.txid txs ≡ false
    → let (r, p) = put_transaction c tx o in
      ((r ≡ err external) × (p ≡ o))
      ⊎ ((r ≡ ok tt) × (get_transactions c p.transactions ≡ ok (txs ++ tx ∷ [])))
unfolding put_transaction
put_new c tx o txs law h new = elim (Option-cases (c.marshal_transactions (txs ++ tx ∷ []))) [
  | inl e ↦ rw (field_holds c o.transactions txs h, new, e) (inl (refl, refl))
  | inr (b, e) ↦
      rw (field_holds c o.transactions txs h, new, e) (inr (refl, read_transactions c _ b law e))
]

-- How a call ends, by whether the ID is among those of the transactions that the order held: refused, not
-- to be written, or recorded.
pub data IsRecorded (c : Codec) (tx : Transaction) (o : Order) (txs : List Transaction)
    : Result (Unit {0}) × Order → Type 0 where
  refused : has_id tx.txid txs ≡ true → IsRecorded c tx o txs (err duplicate_transaction, o)
  unwritten :
      has_id tx.txid txs ≡ false
      → c.marshal_transactions (txs ++ tx ∷ []) ≡ none
      → IsRecorded c tx o txs (err external, o)
  recorded :
      (b : Bytes)
      → has_id tx.txid txs ≡ false
      → get_transactions c (some b) ≡ ok (txs ++ tx ∷ [])
      → IsUnique (txs ++ tx ∷ [])
      → IsRecorded c tx o txs (ok tt, record o { transactions = some b })

-- What PutTransaction does to an order whose transactions can be read and have different IDs: a known
-- transaction is refused with the order unchanged; a new one is the last of the transactions that are read
-- afterwards, which have different IDs again, and nothing else of the order changes; if these cannot be
-- written, the order is unchanged and an error is returned.
pub put_transaction-IsUnique :
    (c : Codec) (tx : Transaction) (o : Order) (txs : List Transaction)
    → IsLawful c
    → Holds c o txs
    → IsUnique txs
    → IsRecorded c tx o txs (put_transaction c tx o)
unfolding put_transaction
put_transaction-IsUnique c tx o txs law h u = elim (Bool-cases (has_id tx.txid txs)) [
  | inl known ↦ rw (put_known c tx o txs h known) (refused known)
  | inr new ↦ elim (Option-cases (c.marshal_transactions (txs ++ tx ∷ []))) [
    | inl e ↦ rw (field_holds c o.transactions txs h, new, e) (unwritten new e)
    | inr (b, e) ↦
        rw (field_holds c o.transactions txs h, new, e)
          (recorded b new (read_transactions c _ b law e) (IsApart-append _ txs tx u new))
  ]
]

order_open-put_transaction :
    (c : Codec) (tx : Transaction) (o : Order)
    → order_open_message c (put_transaction c tx o).1 ≡ order_open_message c o
unfolding put_transaction order_open_message
order_open-put_transaction c tx o = ground arith

put_new_ok :
    (c : Codec) (tx : Transaction) (o : Order) (txs : List Transaction)
    → IsLawful c
    → Holds c o txs
    → has_id tx.txid txs ≡ false
    → (put_transaction c tx o).0 ≡ ok tt
    → get_transactions c (put_transaction c tx o).1.transactions ≡ ok (txs ++ tx ∷ [])
put_new_ok c tx o txs law h new done = elim (put_new c tx o txs law h new) [
  | inl (e, _) ↦ cc
  | inr (_, e) ↦ e
]

module _ (c : Codec) (tx : Transaction) (o : Order) (txs : List Transaction) (m : OrderOpen)
    (p : Payment) (law : IsLawful c) (h : Holds c o txs) (new : has_id tx.txid txs ≡ false)
    (hm : order_open_message c o ≡ ok m) (hp : m.payment ≡ some p)
    (done : (put_transaction c tx o).0 ≡ ok tt) where
  -- A new transaction that is recorded adds to FundingTotal what it pays to the payment address,
  -- and IsFunded compares the amount asked for with the new total.
  pub put_transaction_funds :
      let after = paid_by_all p.address txs +ℤ paid_to p.address tx.to in
      (funding_total c (put_transaction c tx o).1 ≡ ok after)
      × (is_funded c (put_transaction c tx o).1 ≡ ok (leb_ℤ (c.new_amount p.amount) after))
  put_transaction_funds =
      let e : or_empty (get_transactions c (put_transaction c tx o).1.transactions)
          ≡ ok (txs ++ tx ∷ []) =
        rw (put_new_ok c tx o txs law h new done) refl in
      rw (← paid_by_all-append p.address txs tx) (
        funding_total_lem c (put_transaction c tx o).1 m p (txs ++ tx ∷ [])
          (rw order_open-put_transaction hm) hp e)
