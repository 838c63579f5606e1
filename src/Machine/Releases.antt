-- ===== src/Machine/Releases.antt =====
-- orders/order_complete.go and refund.go as moves of the machine, with the release of escrowed funds.
use openbazaar.Prelude.{
  true, Option, none, some, List, [], ◌∷◌, ◌≡◌, refl, sym, subst, arith, str_eq, not, ◌&&◌, is_some,
}
use openbazaar.Exec.{Result, ok, err, panic, Exec, duplicate_transaction}
use openbazaar.Exec.Keeps.{Leaves, leave, after_lift, after_gets, after_if, after_step}
use openbazaar.Proto.Net.{OrderMessage, refund, order_complete}
use openbazaar.Proto.Orders.{
  OrderOpen, OrderFulfillment, EscrowRelease, Method, Refund, Payment, Rating,
}
use openbazaar.Order.Defs.{is_role_buyer, is_role_vendor}
use openbazaar.Order.Put.{put_message, refund_transaction_id, refund_release_info}
use openbazaar.Processor.Env.{Env, Wallet, World}
use openbazaar.Processor.Events.{completed}
use openbazaar.Processor.Payments.{logged}
use openbazaar.Processor.Escrow.{release_complete_escrow_funds, release_refund_escrow_funds}
use openbazaar.Processor.Completion.{
  process_refund, process_order_complete, is_direct, is_moderated, store_ratings,
  release_on_complete, release_on_refund, saved_refund, unless_duplicate,
}
use openbazaar.Machine.Moves.{Flags, flags, admissible, Moves}
use openbazaar.Machine.Payments.{Same, note_release-Same}
use openbazaar.Machine.Steps.{From, From-put, From-with_order_open, From-end, still, fail_if_ok}

logged-Same :
    (f : Flags) (m : Exec World (Unit {0})) (w : World)
    → Leaves (Same f) m w
    → Leaves (Same f) (logged m) w
logged-Same f m w s = record { holds = after_log (m w) s.holds }
  where
    after_log :
        (x : Result (Unit {0}) × World)
        → Same f x.1
        → let y : Result (Unit {0}) × World = elim x.0 [
          | ok u ↦ (ok tt, x.1)
          | err e ↦ (ok tt, x.1)
          | panic ↦ (panic, x.1)
        ] in
          Same f y.1
    after_log (ok u, t) s = s
    after_log (err e, t) s = s
    after_log (panic, t) s = s

module _ (env : Env) (f : Flags) (wallet : Wallet) (opened : OrderOpen) (w : World)
    (s : Same f w) where
  release_complete-Same :
      (fs : List OrderFulfillment) (r : EscrowRelease)
      → Leaves (Same f) (release_complete_escrow_funds env wallet opened fs r) w
  unfolding release_complete_escrow_funds
  release_complete-Same fs r = after_lift s λ _ _. after_lift s λ first _. after_lift s λ _ _.
      after_lift s
        λ _ _. after_lift s λ p _. after_lift s λ script _. record { holds = ground (arith, s) }

  release_refund-Same :
      (r : EscrowRelease) → Leaves (Same f) (release_refund_escrow_funds env wallet opened r) w
  unfolding release_refund_escrow_funds
  release_refund-Same r = after_lift s λ _ _. after_lift s λ _ _. after_lift s λ _ _.
      after_lift s λ p _. after_lift s λ script _.
        after_lift s λ code _. after_lift s λ sigs _. record { holds = ground (arith, s) }

  on_complete-Same :
      (r : Option EscrowRelease) (method : Method)
      → Leaves (Same f) (release_on_complete env wallet opened r method) w
  unfolding release_on_complete
  on_complete-Same none method = leave (ok tt) w s
  on_complete-Same (some r) method = after_gets _ _ (
      after_if
        {b = is_role_vendor w.order.my_role
          && is_moderated method
          && not (is_some w.order.dispute_open.serialized)}
        (λ _. after_lift s λ fs _. logged-Same f _ w (release_complete-Same fs r))
        (λ _. leave (ok tt) w s))

  on_refund-Same :
      (r : Option EscrowRelease) (method : Method)
      → Leaves (Same f) (release_on_refund env wallet opened r method) w
  unfolding release_on_refund
  on_refund-Same none method = leave (ok tt) w s
  on_refund-Same (some r) method = after_gets _ _ (
      after_if {b = is_role_buyer w.order.my_role && is_moderated method}
        (λ _. logged-Same f _ w (release_refund-Same r)) (λ _. leave (ok tt) w s))

store_ratings-Same :
    (env : Env) (f : Flags) (rs : List Rating) (w : World)
    → Same f w
    → Leaves (Same f) (store_ratings env rs) w
unfolding store_ratings
store_ratings-Same env f [] w s = leave (ok tt) w s
store_ratings-Same env f (r ∷ rs) w s =
    after_step (λ t p. p) (after_lift s λ _ _. record { holds = s })
      λ u t e s'. store_ratings-Same env f rs t s'

saved_refund-Same :
    (env : Env) (f : Flags) (r : Refund) (opened : OrderOpen) (w : World)
    → Same f w
    → Leaves (Same f) (saved_refund env r opened) w
unfolding saved_refund
saved_refund-Same env f r opened w s = after_lift s λ p _. after_lift s λ wallet _.
    after_step (λ t q. q)
      (after_if
        {b = not (str_eq (refund_transaction_id r.refund_info) "") && is_direct (Payment.method p)}
        (λ _. note_release-Same env f wallet (refund_transaction_id r.refund_info) w s)
        (λ _. on_refund-Same env f wallet opened w s (refund_release_info r.refund_info) p.method))
      λ u t e s'. after_gets _ _ (after_lift s' λ n _. record { holds = s' })

module _ (env : Env) (m : OrderMessage) (f : Flags) (w : World) (from : From f w) where
  pub complete-From :
      m.message_type ≡ order_complete → Leaves (From f) (process_order_complete env m) w
  unfolding process_order_complete flags
  complete-From h = after_lift from λ msg _. after_gets _ _ (
      after_lift from λ dup _.
        after_if {b = dup} (λ _. leave (ok tt) w from)
          λ _. after_lift from λ u g. From-with_order_open env m f w from _ λ opened o.
            let allowed : admissible order_complete (flags w.order) ≡ true =
              ground (arith, fail_if_ok _ _ g, o) in
            after_lift from λ _ _. after_lift from λ _ _. after_gets _ _ (
              after_step (λ t s. subst (Moves f) (sym s) from)
                (after_if {b = is_role_vendor w.order.my_role}
                  (λ _. store_ratings-Same env (flags w.order) msg.ratings w refl)
                  (λ _. leave (ok tt) w refl))
                λ _ t _ s.
                  let now = subst (Moves f) (sym s) from in
                  after_lift now λ p _. after_lift now λ wallet _.
                    after_step (λ v s'. subst (Moves f) (sym s') from)
                      (on_complete-Same env (flags w.order) wallet opened t s msg.release_info
                        p.method)
                      λ _ v _ s'.
                        let after = subst (Moves f) (sym s') from in
                        after_lift after λ n _.
                          From-end env m f (completed n) v after h
                            (still order_complete v s' allowed)))

  after_put :
      (r : Result (Unit {0})) (v : World) (k : Exec World (Unit {0}))
      → From f v
      → Leaves (From f) k v
      → Leaves (From f) (unless_duplicate r k) v
  after_put (ok u) v k from' l = l
  after_put (err duplicate_transaction) v k from' l = leave (ok tt) v from'
  after_put (err e) v k from' l = leave _ v from'
  after_put panic v k from' l = leave _ v from'

  pub refund-From : m.message_type ≡ refund → Leaves (From f) (process_refund env m) w
  unfolding process_refund flags
  refund-From h = after_lift from λ msg _. after_gets _ _ (
      after_lift from λ u g. From-with_order_open env m f w from _ λ opened o.
        let (r, p) = put_message env.codec m w.order in
        let v : World = record w { order = p } in
        let now : From f v =
          (From-put env m f w from refund h (ground (arith, fail_if_ok _ _ g, o))).holds in
        record {
          holds =
              (after_put r v (saved_refund env msg opened) now (record {
                holds =
                    subst (Moves f) (sym (saved_refund-Same env (flags p) msg opened v refl).holds)
                      now;
              })).holds;
        })
