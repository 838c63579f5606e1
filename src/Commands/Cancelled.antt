-- ===== src/Commands/Cancelled.antt =====
-- core/cancel.go: what CancelOrder has done when it returns no error.
use openbazaar.Prelude.{
  ℕ, ◌+◌, true, Option, some, List, [], ◌∷◌, ◌++◌, ◌≡◌, sym, ap, ◌∙◌, not, arith,
}
use openbazaar.Exec.{Result, ok, external, bad_request, fail_if, or_external}
use openbazaar.Exec.Invert.{step-ok, lifted-ok, read-ok, or_external-ok, ok_injective}
use openbazaar.Proto.Common.{Text}
use openbazaar.Proto.Net.{NetMessage, OrderMessage, order_cancel}
use openbazaar.Proto.Codec.{cancel_kind}
use openbazaar.Processor.Payments.{own_message}
use openbazaar.Order.Defs.{Order}
use openbazaar.Order.Read.{buyer, vendor}
use openbazaar.Order.Status.{can_cancel}
use openbazaar.Processor.Env.{World}
use openbazaar.Node.Defs.{Node, find_order}
use openbazaar.Node.Orders.{begin, save_if}
use openbazaar.Validation.Valid.{test_of, fail_if-passes}
use openbazaar.Commands.Defs.{
  Spend, by_escrow, Purse, Commander, Shop, Deal, Pending, begin_deal, update, begin_wallet,
  carry_message,
}
use openbazaar.Commands.Release.{SignedRelease, cancelable_release, release_from_cancelable_address}
use openbazaar.Commands.Decisions.{cancel_body, cancel_order}
use openbazaar.Commands.Released.{IsRelease, cancelable_release-IsRelease}
use openbazaar.Commands.Settled.{
  own_outcome, IsSettled, IsOwn, Carries, own_message-IsOwn, carry_message-Carries, chosen-ok,
  settle-IsSettled, end_update-ok,
}

-- The wallet's transaction spends what the release says, and is open.
pub record IsPending (c : Commander) (o : Order) (d u : Deal) (pending : Pending) : Type 0 where
  pub release : SignedRelease
  pub is_release : IsRelease c o release
  pub has_txid :
      Purse.build_and_send (release.0) (release.1) (release.2 ∷ []) (release.3) ≡ some pending.txid
  pub spends : pending.spends ≡ by_escrow (release.1) (release.2 ∷ []) ∷ []
  pub left : u ≡ record d { unended = d.unended + 1 }

begun_lem :
    (p : Purse) (d u : Deal)
    → begin_wallet p d ≡ (ok tt, u)
    → u ≡ record d { unended = d.unended + 1 }
unfolding begin_wallet
begun_lem p d u h = chosen-ok p.can_begin (record d { unended = d.unended + 1 }) d external h

released_lem :
    (c : Commander) (o : Order) (d u : Deal) (pending : Pending)
    → release_from_cancelable_address c o d ≡ (ok pending, u)
    → IsPending c o d u pending
unfolding release_from_cancelable_address
released_lem c o d u pending h =
    let (r, hr, k) = lifted-ok (cancelable_release c o) _ h in
    let (_, v, hb, k1) = step-ok (begin_wallet (r.0)) _ k in
    let (txid, hx, k2) =
      lifted-ok (or_external (Purse.build_and_send (r.0) (r.1) (r.2 ∷ []) (r.3))) _ k1 in
    let made : Pending = record {
      purse = r.0;
      txid = txid;
      spends = by_escrow (r.1) (r.2 ∷ []) ∷ [];
    } in
    let e : ok made ≡ ok pending = ap {B = Result Pending} (λ q. q.0) k2 in
    let f : v ≡ u = ap {B = Deal} (λ q. q.1) k2 in
    record {
      release = r;
      is_release = cancelable_release-IsRelease c o r hr;
      has_txid =
          or_external-ok (Purse.build_and_send (r.0) (r.1) (r.2 ∷ []) (r.3)) hx
          ∙ ap {B = Option Text} (λ q. some (Pending.txid q)) (ok_injective e);
      spends = sym (ap {B = List Spend} Pending.spends (ok_injective e));
      left = sym f ∙ begun_lem (r.0) d v hb;
    }

-- A cancelled order: it could be cancelled, the release was paid, the wallet's transaction has ended, and
-- the message was processed as the buyer's own, saved, and queued for the vendor.
pub record IsCancelled (c : Commander) (id : Text) (s t : Shop) : Type 0 where
  pub order : Order
  pub from : Text
  pub to : Text
  pub release : SignedRelease
  pub txid : Text
  pub message : OrderMessage
  pub carried : NetMessage
  pub is_cancel :
      IsOwn c.env order.id order_cancel cancel_kind
        (record { transaction_id = txid; timestamp = c.env.now })
        message
  pub carries : Carries c.env message carried
  pub is_order : find_order id s.node.orders ≡ some order
  pub could_cancel : can_cancel c.env.codec order ≡ true
  pub is_buyer : buyer c.env.codec c.env.decode order ≡ ok from
  pub is_vendor : vendor c.env.codec c.env.decode order ≡ ok to
  pub is_release : IsRelease c order release
  pub has_txid :
      Purse.build_and_send (release.0) (release.1) (release.2 ∷ []) (release.3) ≡ some txid
  pub paid : t.paid ≡ s.paid ++ by_escrow (release.1) (release.2 ∷ []) ∷ []
  pub ended : t.unended ≡ s.unended
  pub saved :
      t.node.orders
      ≡ save_if (own_outcome c from message s.node.orders (begin s.node)).saved s.node.orders
  pub sent :
      t.node.world.outbox
      ≡ (own_outcome c from message s.node.orders (begin s.node)).world.outbox ++ (to, carried) ∷ []

cancel_body-ok :
    (c : Commander) (o : Order) (from to : Text) (d t : Deal)
    → cancel_body c o from to d ≡ (ok tt, t)
    → (pending : Pending) × (u : Deal) × (m : OrderMessage) × (n : NetMessage) × IsPending c o d u
        pending
      × IsOwn c.env o.id order_cancel cancel_kind
          (record { transaction_id = pending.txid; timestamp = c.env.now })
          m
      × Carries c.env m n
      × IsSettled c from to m n pending u t
unfolding cancel_body
cancel_body-ok c o from to d t h =
    let (pending, u, hp, k) = step-ok (release_from_cancelable_address c o) _ h in
    let (resp, hr, k1) = lifted-ok (own_message c.env o.id order_cancel cancel_kind _) _ k in
    let (message, hm, k2) = lifted-ok (carry_message c 0 resp) _ k1 in
    (
      pending,
      u,
      resp,
      message,
      released_lem c o d u pending hp,
      own_message-IsOwn c.env o.id order_cancel cancel_kind _ hr,
      carry_message-Carries c 0 resp hm,
      settle-IsSettled c pending from to resp message u t k2,
    )

-- What CancelOrder has done when it returns no error: the order was in the database and could be
-- cancelled; the wallet has paid one release, of exactly the unspent outputs at the payment address to
-- the wallet's own address, and its transaction has ended; an ORDER_CANCEL for this order, with the
-- release's transaction ID and signed by the node, went through ProcessMessage as the buyer's own message,
-- what that saved is in the database, and one message more is queued than the processing queued, for the
-- vendor, which carries that ORDER_CANCEL.
pub cancel_order-IsCancelled :
    (c : Commander) (id : Text) (s t : Shop)
    → cancel_order c id s ≡ (ok tt, t)
    → IsCancelled c id s t
unfolding cancel_order update begin_deal
cancel_order-IsCancelled c id s t h =
    let (o, ho, k) = read-ok (λ (r : Shop). or_external (find_order id r.node.orders)) _ h in
    let (_, hc, k1) = lifted-ok (fail_if (not (can_cancel c.env.codec o)) bad_request) _ k in
    let (from, hf, k2) = lifted-ok (buyer c.env.codec c.env.decode o) _ k1 in
    let (to, ht, k3) = lifted-ok (vendor c.env.codec c.env.decode o) _ k2 in
    let (d, hd, e) = end_update-ok c.node_env (cancel_body c o from to (begin_deal s)) s t k3 in
    let (pending, u, m, n, p, own, carries, done) =
      cancel_body-ok c o from to (begin_deal s) d hd in
    let paid : u.paid ≡ s.paid = ap {B = List Spend} Deal.paid p.left in
    let unended : u.unended ≡ s.unended + 1 = ap {B = ℕ} Deal.unended p.left in
    record {
      order = o;
      from = from;
      to = to;
      release = p.release;
      txid = pending.txid;
      message = m;
      carried = n;
      is_cancel = own;
      carries = carries;
      is_order = or_external-ok (find_order id s.node.orders) ho;
      could_cancel = test_of _ (fail_if-passes _ bad_request hc);
      is_buyer = hf;
      is_vendor = ht;
      is_release = p.is_release;
      has_txid = p.has_txid;
      paid = ap {B = List Spend} Shop.paid e ∙ done.paid ∙ cc (paid, p.spends);
      ended = ap {B = ℕ} Shop.unended e ∙ done.ended ∙ (let f = unended in omega (arith, f));
      saved =
          ap {B = List Order} (λ q. Node.orders (Shop.node q)) e
          ∙ done.orders_after
          ∙ ap {B = List Order}
              (λ v.
                save_if (own_outcome c from m (Deal.orders v) (Deal.world v)).saved (Deal.orders v))
              p.left;
      sent =
          ap {B = List (Text × NetMessage)} (λ q. World.outbox (Node.world (Shop.node q))) e
          ∙ done.sent
          ∙ ap {B = List (Text × NetMessage)}
              (λ v.
                (own_outcome c from m (Deal.orders v) (Deal.world v)).world.outbox ++ (to, n) ∷ [])
              p.left;
    }
