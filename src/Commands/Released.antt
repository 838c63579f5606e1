-- ===== src/Commands/Released.antt =====
-- core/cancel.go: where the money of a cancelable payment goes.
use openbazaar.Prelude.{◌≡◌, true, false, not, List, is_nil, length, subst, ap, some}
use openbazaar.Prelude.Int.{ℤ}
use openbazaar.Exec.{ok}
use openbazaar.Exec.Invert.{bind_result-ok, external-ok, pointer-ok, fail_if-ok, ok_injective}
use openbazaar.Proto.Common.{Text}
use openbazaar.Proto.Orders.{OrderOpen, Payment}
use openbazaar.Proto.Codec.{Transaction}
use openbazaar.Order.Defs.{Order}
use openbazaar.Order.Read.{order_open_message, get_transactions}
use openbazaar.Order.Status.{is_cancelable}
use openbazaar.Validation.Valid.{test_of}
use openbazaar.Commands.Defs.{Purse, Commander}
use openbazaar.Commands.Release.{
  SignedRelease, sweep, spend_to, release_fee, sign_release, release_to, cancelable_release,
}
use openbazaar.Commands.Swept.{IsSweep, spend_to-IsSweep}

-- The release spends what the transactions leave at the address.
pub record IsPaidOut (c : Commander) (purse : Purse) (p : Payment) (to : Text)
    (txs : List Transaction) (txn : Transaction) : Type 0 where
  pub fee : ℤ
  pub is_fee : purse.escrow_fee 1 ≡ some fee
  pub not_empty : is_nil txn.from ≡ false
  pub sweeps : IsSweep p.address to (release_fee c fee (length txn.from)) txs txn

-- What is released of a cancelable order.
pub record IsRelease (c : Commander) (o : Order) (r : SignedRelease) : Type 0 where
  pub opened : OrderOpen
  pub payment : Payment
  pub txs : List Transaction
  pub to : Text
  pub is_open : order_open_message c.env.codec o ≡ ok opened
  pub is_payment : opened.payment ≡ some payment
  pub cancelable : is_cancelable payment.method ≡ true
  pub is_purse : c.purse_for payment.coin ≡ some (r.0)
  pub own_address : Purse.current_address (r.0) ≡ some to
  pub is_transactions : get_transactions c.env.codec o.transactions ≡ ok txs
  pub paid_out : IsPaidOut c (r.0) payment to txs (r.1)

sign_release-ok :
    (c : Commander) (purse : Purse) (p : Payment) (txn : Transaction) {r : SignedRelease}
    → sign_release c purse p txn ≡ ok r
    → (purse ≡ r.0) × (txn ≡ r.1)
unfolding sign_release
sign_release-ok c purse p txn done =
    let (script, _, k) = external-ok (c.env.decode_hex p.script) _ done in
    let (chaincode, _, k1) = external-ok (c.env.decode_hex p.chaincode) _ k in
    let (sigs, _, k2) = external-ok (purse.wallet.sign_multisig txn chaincode script) _ k1 in
    let e = ok_injective k2 in
    (
      ap {B = Purse} (λ (q : SignedRelease). q.0) e,
      ap {B = Transaction} (λ (q : SignedRelease). q.1) e,
    )

release_to-IsPaidOut :
    (c : Commander) (purse : Purse) (p : Payment) (to : Text) (txs : List Transaction)
    (r : SignedRelease)
    → release_to c purse p to txs ≡ ok r
    → (purse ≡ r.0) × IsPaidOut c purse p to txs (r.1)
unfolding release_to spend_to
release_to-IsPaidOut c purse p to txs r done =
    let (he, k) = fail_if-ok (is_nil (sweep p.address txs).from) _ _ done in
    let (fee, hf, k1) = external-ok (purse.escrow_fee 1) _ k in
    let (e, f) = sign_release-ok c purse p _ k1 in
    (
      e,
      subst (λ txn. IsPaidOut c purse p to txs txn) f
          (record {
            fee = fee;
            is_fee = hf;
            not_empty = he;
            sweeps = spend_to-IsSweep p.address to _ txs;
          }),
    )

-- What the node releases from a cancelable payment: the inputs are exactly the outputs at the payment
-- address, of the transactions that the order holds, that none of these spends, and there is one at
-- least; the one output goes to the wallet's own address, and holds their sum less the fee.
pub cancelable_release-IsRelease :
    (c : Commander) (o : Order) (r : SignedRelease)
    → cancelable_release c o ≡ ok r
    → IsRelease c o r
unfolding cancelable_release
cancelable_release-IsRelease c o r done =
    let (m, hm, k) = bind_result-ok (order_open_message c.env.codec o) _ done in
    let (p, hp, k1) = pointer-ok m.payment _ k in
    let (hc, k2) = fail_if-ok (not (is_cancelable p.method)) _ _ k1 in
    let (w, hw, k3) = external-ok (c.purse_for p.coin) _ k2 in
    let (to, ht, k4) = external-ok w.current_address _ k3 in
    let (_, k5) = fail_if-ok (not w.wallet.is_escrow) _ _ k4 in
    let (txs, hx, k6) = bind_result-ok (get_transactions c.env.codec o.transactions) _ k5 in
    let (e, h) = release_to-IsPaidOut c w p to txs r k6 in
    record {
      opened = m;
      payment = p;
      txs = txs;
      to = to;
      is_open = hm;
      is_payment = hp;
      cancelable = test_of _ hc;
      is_purse = subst (λ q. c.purse_for p.coin ≡ some q) e hw;
      own_address = subst (λ (q : Purse). q.current_address ≡ some to) e ht;
      is_transactions = hx;
      paid_out = subst (λ q. IsPaidOut c q p to txs (r.1)) e h;
    }
