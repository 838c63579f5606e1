-- ===== src/Commands/Bodies.antt =====
-- core/: the transactions of the commands, followed step by step.
use openbazaar.Prelude.{Bool, Option, some, List, not, ◌&&◌}
use openbazaar.Exec.{Result, err, external}
use openbazaar.Proto.Common.{Text}
use openbazaar.Proto.Net.{NetMessage, OrderMessage}
use openbazaar.Proto.Orders.{
  Method, direct, cancelable, moderated, other_method, OrderOpen, Payment, FulfilledItem,
}
use openbazaar.Order.Defs.{Order}
use openbazaar.Order.Status.{is_cancelable}
use openbazaar.Commands.Defs.{Purse, Commander, Deal, Pending, settle}
use openbazaar.Commands.Release.{release_from_cancelable_address}
use openbazaar.Commands.Decisions.{confirm_release, confirm_body, cancel_body}
use openbazaar.Commands.Refunds.{
  refund_direct, refund_by_method, build_refund_message, refund_body, reject_and_refund,
  reject_body,
}
use openbazaar.Commands.Fulfillments.{fulfill_body}
use openbazaar.Commands.Rules.{
  Steps, Ends, Rule, lifts, Steps-then, Steps-if, Ends-then, Ends-if, Ends-with, Steps-or_roll_back,
}

module _ {ℓ κ} {c : Commander} {P : Deal → Type ℓ} {R : Result (Unit {0}) × Deal → Type κ}
    (rule : Rule c P R) where
  release-Steps : (o : Order) → Steps P (release_from_cancelable_address c o)
  unfolding release_from_cancelable_address
  release-Steps o =
      Steps-then (lifts _)
        λ r. Steps-then (rule.begins (r.0)) λ _. Steps-then (lifts _) λ txid. lifts _

  settle-Ends :
      (p : Option Pending) (from to : Text) (m : OrderMessage) (n : NetMessage)
      → Ends P R (settle c p from m to n)
  unfolding settle
  settle-Ends p from to m n =
      Ends-then rule (Steps-or_roll_back rule p (rule.processes from m))
        λ _. Ends-then rule (Steps-or_roll_back rule p (rule.sends to n)) λ _. rule.commits p

  confirm_release-Steps : (o : Order) → Steps P (confirm_release c o)
  unfolding confirm_release
  confirm_release-Steps o = Steps-then (lifts _) λ m. Steps-then (lifts _) λ p.
      Steps-if (is_cancelable (Payment.method p)) (Steps-then (release-Steps o) λ r. lifts _)
        (lifts _)

  pub confirm_body-Ends : (o : Order) (to from : Text) → Ends P R (confirm_body c o to from)
  unfolding confirm_body
  confirm_body-Ends o to from = Ends-then rule (confirm_release-Steps o) λ p.
      Ends-then rule (lifts _)
        λ resp. Ends-then rule (lifts _) λ message. settle-Ends p from to resp message

  pub cancel_body-Ends : (o : Order) (from to : Text) → Ends P R (cancel_body c o from to)
  unfolding cancel_body
  cancel_body-Ends o from to = Ends-then rule (release-Steps o) λ p.
      Ends-then rule (lifts _)
        λ resp. Ends-then rule (lifts _) λ message. settle-Ends (some p) from to resp message

  refund_by_method-Steps :
      (k : Method) (o : Order) (purse : Purse) (m : OrderOpen) (p : Payment)
      → Steps P (refund_by_method c k o purse m p)
  unfolding refund_by_method refund_direct
  refund_by_method-Steps direct o purse m p =
      Steps-then (lifts _) λ _. Steps-then (lifts _) λ _. Steps-then (lifts _) λ _. lifts _
  refund_by_method-Steps moderated o purse m p = Steps-then (lifts _) λ _. lifts _
  refund_by_method-Steps cancelable o purse m p = lifts (err external)
  refund_by_method-Steps (other_method n) o purse m p = lifts (err external)

  build_refund_message-Steps :
      (o : Order) (purse : Purse) → Steps P (build_refund_message c o purse)
  unfolding build_refund_message
  build_refund_message-Steps o purse = Steps-then (lifts _) λ m.
      Steps-then (lifts _) λ p.
        Steps-then (rule.begins purse) λ _. refund_by_method-Steps (Payment.method p) o purse m p

  pub refund_body-Ends :
      (o : Order) (m : OrderOpen) (to from : Text) → Ends P R (refund_body c o m to from)
  unfolding refund_body
  refund_body-Ends o m to from = Ends-then rule (lifts _) λ p. Ends-then rule (lifts _) λ purse.
      Ends-then rule (build_refund_message-Steps o purse) λ r. Ends-then rule (lifts _) λ resp.
        Ends-then rule (Steps-or_roll_back rule (some (r.0)) (lifts _))
          λ message. settle-Ends (some (r.0)) from to resp message

  reject_and_refund-Ends :
      (o : Order) (p : Payment) (to from : Text) (message : NetMessage)
      → Ends P R (reject_and_refund c o p to from message)
  unfolding reject_and_refund
  reject_and_refund-Ends o p to from message = Ends-then rule (lifts _) λ purse.
      Ends-then rule (build_refund_message-Steps o purse) λ r. Ends-then rule (lifts _) λ resp.
        Ends-then rule (Steps-or_roll_back rule (some (r.0)) (lifts _)) λ carried.
          Ends-then rule (Steps-or_roll_back rule (some (r.0)) (rule.processes from resp)) λ _.
            Ends-then rule (Steps-or_roll_back rule (some (r.0)) (rule.sends to message)) λ _.
              Ends-then rule (Steps-or_roll_back rule (some (r.0)) (rule.sends to carried))
                λ _. rule.commits (some (r.0))

  pub reject_body-Ends :
      (o : Order) (p : Payment) (funded : Bool) (to from : Text) (resp : OrderMessage)
      (message : NetMessage)
      → Ends P R (reject_body c o p funded to from resp message)
  unfolding reject_body
  reject_body-Ends o p funded to from resp message = Ends-then rule (rule.processes from resp) λ _.
      Ends-if rule (funded && not (is_cancelable p.method))
        (reject_and_refund-Ends o p to from message) (Ends-with rule (rule.sends to message))

  pub fulfill_body-Ends :
      (o : Order) (m : OrderOpen) (items : List FulfilledItem) (to from : Text)
      → Ends P R (fulfill_body c o m items to from)
  unfolding fulfill_body
  fulfill_body-Ends o m items to from = Ends-then rule (lifts _) λ p.
      Ends-then rule (lifts _) λ release. Ends-then rule (lifts _) λ resp.
        Ends-then rule (lifts _) λ message.
          Ends-then rule (rule.processes from resp) λ _. Ends-with rule (rule.sends to message)
