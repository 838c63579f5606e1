-- ===== src/Machine/Funding.antt =====
-- orders/payment_sent.go and processIncomingPayment of transactions.go as moves of the machine: the
-- node sends and saves messages of its own.
use openbazaar.Prelude.{
  Bool, true, Option, none, some, List, [], ◌∷◌, ◌≡◌, refl, sym, ap, subst, ◌∙◌, inl, inr, str_eq,
  exists_in,
}
use openbazaar.Exec.{Result, ok, err, panic, Exec, duplicate_transaction}
use openbazaar.Exec.Keeps.{Leaves, leave, after_lift, after_read, after_gets, after_if, after_step}
use openbazaar.Proto.Common.{Text}
use openbazaar.Proto.Net.{MessageType, OrderMessage, NetMessage, payment_sent, rating_signatures}
use openbazaar.Proto.Orders.{OrderOpen}
use openbazaar.Proto.Codec.{Transaction, SpendInfo}
use openbazaar.Order.Defs.{OrderRole, role_buyer, role_vendor}
use openbazaar.Order.Read.{buyer, order_open_message}
use openbazaar.Order.Put.{put_message, put_transaction}
use openbazaar.Order.Status.{is_funded, funding_total}
use openbazaar.Processor.Env.{Env, Wallet, World, on_order, reliably_send}
use openbazaar.Processor.Payments.{
  send_rating_signatures, buyer_incoming, vendor_incoming, incoming_by_role, once, logged,
  process_incoming_payment,
}
use openbazaar.Processor.Progress.{
  process_payment_sent, scan_outputs, note_payment, noted_payment, unless_known,
}
use openbazaar.Machine.Moves.{Flags, flags, with_flag, admissible, Moves, add}
use openbazaar.Machine.Disputes.{own_message-type, reliably_send-Same}
use openbazaar.Machine.Steps.{From, From-with_order_open, flags-put_message, flags-put_transaction}

-- A message of the type may be put to every open order.
record IsOpenTo (t : MessageType) : Type 0 where
  admitted : (g : Flags) → admissible t g ≡ g.has_open
  still_open : (g : Flags) → (with_flag t g).has_open ≡ g.has_open

payment_sent-IsOpenTo : IsOpenTo payment_sent
payment_sent-IsOpenTo = record { admitted = λ g. refl; still_open = λ g. refl }

ratings-IsOpenTo : IsOpenTo rating_signatures
ratings-IsOpenTo = record { admitted = λ g. refl; still_open = λ g. refl }

module _ (env : Env) (f : Flags) where
  -- Some moves from `f` to flags with ORDER_OPEN.
  abbrev OpenAt : Flags → Type 0
  OpenAt g = Moves f g × (g.has_open ≡ true)

  abbrev Open : World → Type 0
  Open w = OpenAt (flags w.order)

  Open-put :
      (m : OrderMessage) (t : MessageType) (w : World)
      → IsOpenTo t
      → m.message_type ≡ t
      → Open w
      → Leaves Open (on_order (put_message env.codec m)) w
  Open-put m t w h e (from, o) = elim (flags-put_message env.codec m w.order) [
    | inl e' ↦ record { holds = subst OpenAt (sym e') (from, o) }
    | inr e' ↦ record {
      holds =
          subst OpenAt (sym (e' ∙ ap (λ u. with_flag u (flags w.order)) e))
            (add t from (h.admitted _ ∙ o) refl, h.still_open _ ∙ o);
    }
  ]

  Open-send :
      (peer : Text) (msg : NetMessage) (w : World)
      → Open w
      → Leaves Open (reliably_send env peer msg) w
  Open-send peer msg w q = record {
    holds = subst OpenAt (sym (reliably_send-Same env (flags w.order) peer msg w refl).holds) q;
  }

  Open-log : (m : Exec World (Unit {0})) (w : World) → Leaves Open m w → Leaves Open (logged m) w
  Open-log m w q = record { holds = after_log (m w) q.holds }
    where
      after_log :
          (x : Result (Unit {0}) × World)
          → Open x.1
          → let y : Result (Unit {0}) × World = elim x.0 [
            | ok u ↦ (ok tt, x.1)
            | err e ↦ (ok tt, x.1)
            | panic ↦ (panic, x.1)
          ] in
            Open y.1
      after_log (ok u, t) s = s
      after_log (err e, t) s = s
      after_log (panic, t) s = s

  send_ratings-Open :
      (m : OrderOpen) (w : World) → Open w → Leaves Open (send_rating_signatures env m) w
  unfolding send_rating_signatures
  send_ratings-Open m w q = after_lift q λ sigs _. after_gets _ _ (
      after_lift q λ om e. after_lift q λ msg _.
        after_read (λ v. buyer env.codec env.decode v.order) q
          λ to _.
            after_step (λ t p. p) (Open-send to msg w q)
              λ _ t _ p.
                Open-put om rating_signatures t ratings-IsOpenTo (own_message-type env _ _ _ _ e) p)

  buyer_incoming-Open :
      (tx : Transaction) (funded : Bool) (m : OrderOpen) (w : World)
      → Open w
      → Leaves Open (buyer_incoming env tx funded m) w
  unfolding buyer_incoming
  buyer_incoming-Open tx funded m w q = after_gets _ _ (
      after_lift q λ om e. after_lift q λ msg _. after_lift q λ to _.
        after_step (λ t p. p) (Open-send to msg w q)
          λ _ t _ p.
            after_step (λ v r. r)
              (Open-put om payment_sent t payment_sent-IsOpenTo (own_message-type env _ _ _ _ e) p)
              λ _ v _ r.
                after_if {b = funded}
                  (λ _.
                    after_read (λ x. funding_total env.codec x.order) r
                      λ total _. after_lift r λ pay _. record { holds = r })
                  (λ _. leave (ok tt) v r))

  vendor_incoming-Open :
      (funded : Bool) (m : OrderOpen) (w : World)
      → Open w
      → Leaves Open (vendor_incoming env funded m) w
  unfolding vendor_incoming
  vendor_incoming-Open funded m w q =
      after_if {b = funded}
        (λ _.
          after_step (λ t p. p) (Open-log _ w (send_ratings-Open m w q))
            λ _ t _ p. after_gets _ _ (after_lift p λ sale _. record { holds = p }))
        (λ _. leave (ok tt) w q)

  by_role-Open :
      (role : OrderRole) (tx : Transaction) (funded : Bool) (m : OrderOpen) (w : World)
      → Open w
      → Leaves Open (incoming_by_role role env tx funded m) w
  unfolding incoming_by_role
  by_role-Open role_buyer tx funded m w q = buyer_incoming-Open tx funded m w q
  by_role-Open role_vendor tx funded m w q = vendor_incoming-Open funded m w q
  by_role-Open _ tx funded m w q = leave (ok tt) w q

  once-Open :
      (r : Result (Unit {0})) (k : Exec World (Unit {0})) (w : World)
      → Open w
      → Leaves Open k w
      → Leaves Open (once r k) w
  once-Open (ok u) k w q l = l
  once-Open (err duplicate_transaction) k w q l = leave (ok tt) w q
  once-Open (err e) k w q l = leave (err e) w q
  once-Open panic k w q l = leave panic w q

  incoming-Open :
      (tx : Transaction) (w : World) → Open w → Leaves Open (process_incoming_payment env tx) w
  unfolding process_incoming_payment
  incoming-Open tx w q =
      let (r, o) = put_transaction env.codec tx w.order in
      let v : World = record w { order = o } in
      let p : Open v = subst OpenAt (sym (flags-put_transaction env.codec tx w.order)) q in
      record {
        holds =
            (once-Open r _ v p (
              after_read (λ x. is_funded env.codec x.order) p
                λ funded _.
                  after_read (λ x. order_open_message env.codec x.order) p
                    λ m _. by_role-Open w.order.my_role tx funded m v p)).holds;
      }

  scan_outputs-Open :
      (tx : Transaction) (a : Text) (outs : List SpendInfo) (w : World)
      → Open w
      → Leaves Open (scan_outputs env tx a outs) w
  unfolding scan_outputs
  scan_outputs-Open tx a [] w q = leave (ok tt) w q
  scan_outputs-Open tx a (x ∷ xs) w q =
      after_if
        (λ _. after_step (λ t p. p) (incoming-Open tx w q) λ _ t _ p. scan_outputs-Open tx a xs t p)
        (λ _. scan_outputs-Open tx a xs w q)

  -- What GetTransaction finds is scanned, and its error is passed over.
  found-Open :
      (r : Option Transaction) (w : World)
      → Open w
      → let done : Result (Unit {0}) × World = elim r [
        | none ↦ (ok tt, w)
        | some tx ↦ scan_outputs env tx w.order.payment_address (Transaction.to tx) w
      ] in
        Open done.1
  found-Open none w q = q
  found-Open (some tx) w q = (scan_outputs-Open tx w.order.payment_address tx.to w q).holds

  note_payment-Open :
      (wallet : Wallet) (txid : Text) (w : World)
      → Open w
      → Leaves Open (note_payment env wallet txid) w
  unfolding note_payment
  note_payment-Open wallet txid w q = record {
    holds = found-Open (wallet.get_transaction txid) w q;
  }

  noted-Open :
      (txid : Text) (m : OrderOpen) (w : World) → Open w → Leaves Open (noted_payment env txid m) w
  unfolding noted_payment
  noted-Open txid m w q = after_lift q λ p _. after_lift q λ wallet _. after_gets _ _ (
      after_lift q λ txs _.
        after_if {b = exists_in (λ t. str_eq (Transaction.txid t) txid) txs}
          (λ _. leave (ok tt) w q)
          (λ _.
            after_step (λ t r. r) (note_payment-Open wallet txid w q)
              λ _ t _ r. record { holds = r }))

  known-Open :
      (r : Result (Unit {0})) (k : Exec World (Unit {0})) (w : World)
      → Open w
      → Leaves Open k w
      → Leaves Open (unless_known r k) w
  known-Open (ok u) k w q l = l
  known-Open (err duplicate_transaction) k w q l = leave (ok tt) w q
  known-Open (err e) k w q l = l
  known-Open panic k w q l = leave panic w q

  pub payment-From :
      (m : OrderMessage) (w : World)
      → From f w
      → m.message_type ≡ payment_sent
      → Leaves (From f) (process_payment_sent env m) w
  unfolding process_payment_sent
  payment-From m w from h = after_lift from λ msg _.
      From-with_order_open env m f w from _ λ opened o.
        let (r, p) = put_message env.codec m w.order in
        let v : World = record w { order = p } in
        let q : Open v = (Open-put m payment_sent w payment_sent-IsOpenTo h (from, o)).holds in
        record {
          holds =
              (known-Open r (noted_payment env msg.transaction_id opened) v q
                (noted-Open msg.transaction_id opened v q)).holds.0;
        }
