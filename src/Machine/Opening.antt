-- ===== src/Machine/Opening.antt =====
-- orders/order_open.go as moves of the machine: a vendor may put an ORDER_REJECT of its own first.
use openbazaar.Prelude.{
  Bool, false, Option, none, some, ◌≡◌, refl, sym, subst, ◌&&◌, not, is_some, str_eq, arith,
}
use openbazaar.Exec.{Error, Result, ok, err, panic, Exec, external}
use openbazaar.Exec.Keeps.{
  Leaves, leave, after_lift, after_gets, after_if, after_step, after_modify,
}
use openbazaar.Proto.Common.{Bytes, Text}
use openbazaar.Proto.Net.{OrderMessage, order_open, order_reject}
use openbazaar.Proto.Orders.{OrderOpen, Payment}
use openbazaar.Proto.Codec.{Codec, Kind, Body, open_kind}
use openbazaar.Order.Defs.{is_role_vendor}
use openbazaar.Order.Put.{put_message}
use openbazaar.Processor.Env.{Env, World, on_order}
use openbazaar.Processor.Guards.{is_duplicate, seen_before}
use openbazaar.Processor.Opening.{
  process_order_open, send_validation_reject, unless_valid, announce, watch_payment, forget_event,
}
use openbazaar.Machine.Moves.{Flags, flags, Moves}
use openbazaar.Machine.Invariant.{IsConsistent}
use openbazaar.Machine.Payments.{Same}
use openbazaar.Machine.Disputes.{own_message-type, reliably_send-Same}
use openbazaar.Machine.Steps.{From, From-put}

seen_before_new :
    (c : Codec) (k : Kind) (msg : Body k) (field : Option Bytes)
    → seen_before c k msg field ≡ ok false
    → is_some field ≡ false
unfolding seen_before is_duplicate
seen_before_new c k msg field h = ground arith

-- An order that has not been opened is not confirmed.
unconfirmed : (f : Flags) → IsConsistent f → f.has_open ≡ false → f.has_confirmation ≡ false
unconfirmed f h e = ground (arith, h.opened)

module _ (env : Env) (f : Flags) where
  forget-From :
      (m : Exec World (Unit {0})) (w : World)
      → Leaves (From f) m w
      → Leaves (From f) (forget_event m) w
  unfolding forget_event
  forget-From m w l = record { holds = after_result (m w) l.holds }
    where
      after_result :
          (x : Result (Unit {0}) × World)
          → From f x.1
          → let y : Result (Unit {0}) × World = elim x.0 [
            | ok u ↦ (ok u, x.1)
            | other ↦ (other, record (x.1) { event = none })
          ] in
            From f y.1
      after_result (ok u, t) h = h
      after_result (err e, t) h = h
      after_result (panic, t) h = h

  -- Some moves from `f`, and no confirmation.
  abbrev Undecided : World → Type 0
  Undecided w = From f w × ((flags w.order).has_confirmation ≡ false)

  reject-Undecided :
      (m : OrderMessage) (w : World)
      → m.message_type ≡ order_reject
      → Undecided w
      → Leaves (From f) (on_order (put_message env.codec m)) w
  reject-Undecided m w h q = From-put env m f w q.0 order_reject h (ground (arith, q.1))

  send_reject-From :
      (peer : Text) (e : Error) (w : World)
      → Undecided w
      → Leaves (From f) (send_validation_reject env peer e) w
  unfolding send_validation_reject
  send_reject-From peer e w q = after_gets _ _ (
      after_lift q.0 λ resp own. after_lift q.0 λ msg _.
        after_step {P = Same (flags w.order)} (λ t s. subst (Moves f) (sym s) q.0)
          (reliably_send-Same env (flags w.order) peer msg w refl)
          λ u t _ s.
            reject-Undecided resp t (own_message-type env _ _ _ _ own)
              (subst (λ g. Moves f g × (g.has_confirmation ≡ false)) (sym s) q))

  unless_valid-From :
      (peer : Text) (e : Option Error) (w : World)
      → Undecided w
      → Leaves (From f) (unless_valid env peer e) w
  unfolding unless_valid
  unless_valid-From peer none w q = leave (ok tt) w q.0
  unless_valid-From peer (some e) w q = after_gets _ _ (
      after_if {b = is_role_vendor w.order.my_role} (λ _. send_reject-From peer e w q)
        λ _. leave (ok tt) w q.0)

  announce-From :
      (peer id : Text) (valid : Bool) (opened : OrderOpen) (w : World)
      → From f w
      → Leaves (From f) (announce env peer id valid opened) w
  unfolding announce
  announce-From peer id valid opened w from =
      after_if {b = valid && not (str_eq env.identity peer)}
        (λ _. after_lift from λ sale _. record { holds = from }) (λ _. leave (ok tt) w from)

  watch-From : (p : Payment) (w : World) → From f w → Leaves (From f) (watch_payment env p) w
  unfolding watch_payment flags
  watch-From p w from = after_modify _ (
      after_lift from λ wallet _.
        after_if {b = wallet.watch_address p.address} (λ _. record { holds = from })
          (λ _. leave (err external) _ from))

  pub open-From :
      (peer : Text) (m : OrderMessage) (w : World)
      → From f w
      → IsConsistent (flags w.order)
      → m.message_type ≡ order_open
      → Leaves (From f) (process_order_open env peer m) w
  unfolding process_order_open flags
  open-From peer m w from h e = forget-From _ w (
      after_modify _ (
        after_lift from λ msg _. after_gets _ _ (
          after_lift from λ dup seen.
            after_if {b = dup} (λ _. leave (ok tt) _ from)
              λ isnew. after_lift from λ buyer _. after_modify _ (
                after_gets _ _ (
                  after_step (λ t q. q)
                    (unless_valid-From peer _ _ (
                      from,
                      unconfirmed (flags w.order) h (
                          seen_before_new env.codec open_kind msg w.order.order_open.serialized
                            (rw isnew at seen)),
                    ))
                    λ _ t _ now.
                      after_step (λ v q. q) (announce-From peer m.order_id _ msg t now)
                        λ _ v _ later.
                          after_step (λ x q. q) (From-put env m f v later order_open e refl)
                            λ _ x _ put. after_lift put λ p _. watch-From p x put)))))
