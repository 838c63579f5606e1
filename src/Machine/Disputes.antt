-- ===== src/Machine/Disputes.antt =====
-- orders/dispute_open.go as moves of the machine: the node may put a DISPUTE_UPDATE of its own first.
use openbazaar.Prelude.{◌≡◌, refl, sym, ap, subst, ◌∙◌, arith, inl, inr, true}
use openbazaar.Exec.{ok}
use openbazaar.Exec.Keeps.{Leaves, leave, after_lift, after_gets, after_if, after_step}
use openbazaar.Proto.Common.{Text}
use openbazaar.Proto.Net.{MessageType, OrderMessage, NetMessage, dispute_open, dispute_update}
use openbazaar.Proto.Orders.{Payment}
use openbazaar.Proto.Codec.{Kind, Body}
use openbazaar.Order.Put.{put_message}
use openbazaar.Processor.Env.{Env, World, on_order, reliably_send}
use openbazaar.Processor.Events.{disputed}
use openbazaar.Processor.Payments.{own_message, sign_order_message}
use openbazaar.Processor.Disputes.{process_dispute_open, send_dispute_update, opened_by_us}
use openbazaar.Machine.Moves.{Flags, flags, with_flag, admissible, Moves, add}
use openbazaar.Machine.Payments.{Same}
use openbazaar.Machine.Steps.{From, From-with_order_open, From-end, flags-put_message, fail_if_ok}

-- A message of the node's own has the type that was asked for.
pub own_message-type :
    (env : Env) (id : Text) (t : MessageType) (k : Kind) (msg : Body k) {m : OrderMessage}
    → own_message env id t k msg ≡ ok m
    → m.message_type ≡ t
unfolding own_message sign_order_message
own_message-type env id t k msg h = ground arith

pub reliably_send-Same :
    (env : Env) (f : Flags) (peer : Text) (msg : NetMessage) (w : World)
    → Same f w
    → Leaves (Same f) (reliably_send env peer msg) w
unfolding reliably_send
reliably_send-Same env f peer msg w s = record { holds = ground (arith, s) }

module _ (env : Env) (f : Flags) where
  -- Some moves from `f`, and a dispute may be opened.
  abbrev MayDispute : World → Type 0
  MayDispute w = From f w × (admissible dispute_open (flags w.order) ≡ true)

  MayDispute-put :
      (m : OrderMessage) (w : World)
      → m.message_type ≡ dispute_update
      → MayDispute w
      → Leaves MayDispute (on_order (put_message env.codec m)) w
  MayDispute-put m w h (from, a) = elim (flags-put_message env.codec m w.order) [
    | inl e ↦ record {
      holds = subst (λ g. Moves f g × (admissible dispute_open g ≡ true)) (sym e) (from, a);
    }
    | inr e ↦ record {
      holds =
          subst (λ g. Moves f g × (admissible dispute_open g ≡ true))
            (sym (e ∙ ap (λ t. with_flag t (flags w.order)) h))
            (add dispute_update from (ground (arith, a)) refl, a);
    }
  ]

  send_dispute_update-MayDispute :
      (p : Payment) (w : World) → MayDispute w → Leaves MayDispute (send_dispute_update env p) w
  unfolding send_dispute_update
  send_dispute_update-MayDispute p w d = after_gets _ _ (
      after_lift d λ contract _. after_lift d λ resp e. after_lift d λ msg _.
        after_lift d λ moderator _.
          after_step (λ t q. q) (MayDispute-put resp w (own_message-type env _ _ _ _ e) d)
            λ u t _ q. record {
              holds =
                  subst (λ g. Moves f g × (admissible dispute_open g ≡ true))
                    (sym (reliably_send-Same env (flags t.order) moderator msg t refl).holds) q;
            })

  pub dispute-From :
      (m : OrderMessage) (w : World)
      → From f w
      → m.message_type ≡ dispute_open
      → Leaves (From f) (process_dispute_open env m) w
  unfolding process_dispute_open flags
  dispute-From m w from h = after_lift from λ msg _. after_gets _ _ (
      after_lift from λ dup _.
        after_if {b = dup} (λ _. leave (ok tt) w from)
          λ _. after_lift from λ u g. From-with_order_open env m f w from _ λ opened o.
            after_lift from λ p _. after_lift from λ _ _. after_gets _ _ (
              after_lift from λ e _.
                after_step {P = MayDispute} (λ t q. q.0)
                  (after_if {b = opened_by_us w.order.my_role msg.opened_by}
                    (λ _. leave (ok tt) w (from, ground (arith, fail_if_ok _ _ g, o)))
                    (λ _.
                      send_dispute_update-MayDispute p w
                        (from, ground (arith, fail_if_ok _ _ g, o))))
                  λ _ t _ q. From-end env m f (disputed e) t q.0 h q.1))
