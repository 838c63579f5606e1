-- ===== src/Machine/Deliveries.antt =====
-- orders/order_fulfillment.go and rating_signatures.go as moves of the machine.
use openbazaar.Prelude.{◌≡◌, arith}
use openbazaar.Exec.{ok}
use openbazaar.Exec.Keeps.{Leaves, leave, after_lift, after_gets, after_if}
use openbazaar.Proto.Net.{OrderMessage, order_fulfillment, rating_signatures}
use openbazaar.Order.Read.{order_confirmation_message}
use openbazaar.Processor.Env.{Env, World}
use openbazaar.Processor.Events.{fulfilled, rating_signatures_received}
use openbazaar.Processor.Progress.{process_order_fulfillment, process_rating_signatures}
use openbazaar.Machine.Moves.{Flags, flags}
use openbazaar.Machine.Steps.{
  From, From-park_or, From-with_order_open, From-end, fail_if_ok, confirmed_flag,
}

module _ (env : Env) (m : OrderMessage) (f : Flags) (w : World) (from : From f w) where
  pub fulfillment-From :
      m.message_type ≡ order_fulfillment → Leaves (From f) (process_order_fulfillment env m) w
  unfolding process_order_fulfillment flags
  fulfillment-From h = after_lift from λ msg _. after_gets _ _ (
      after_lift from λ u g. From-with_order_open env m f w from _ λ opened o. record {
        holds =
            (From-park_or env m f w from (order_confirmation_message env.codec w.order) _ λ c e.
              after_gets _ _ (
                after_lift from λ n _.
                  From-end env m f (fulfilled n) w from h (
                    ground
                      (arith, fail_if_ok _ _ g, o, confirmed_flag env.codec w.order e)))).holds;
      })

  pub ratings-From :
      m.message_type ≡ rating_signatures → Leaves (From f) (process_rating_signatures env m) w
  unfolding process_rating_signatures
  ratings-From h = after_lift from λ msg _. after_gets _ _ (
      after_lift from λ dup _.
        after_if {b = dup} (λ _. leave (ok tt) w from)
          λ _. From-with_order_open env m f w from _ λ opened o. after_lift from λ _ _.
            after_lift from λ v _. after_lift from λ keys _. after_lift from λ key _.
              after_lift from λ _ _.
                after_gets _ _
                  (From-end env m f (rating_signatures_received w.order.id) w from h o))
