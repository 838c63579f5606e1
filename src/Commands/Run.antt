-- ===== src/Commands/Run.antt =====
-- core/: the commands together, and what holds of a node whichever of them is run.
use openbazaar.Prelude.{List}
use openbazaar.Exec.{Result, ok, err, panic, Exec, ◌>>=◌}
use openbazaar.Proto.Common.{Text}
use openbazaar.Commands.Defs.{Fulfillment, Commander, Shop, Deal, begin_deal, end_update, update}
use openbazaar.Commands.Decisions.{confirm_order, cancel_order}
use openbazaar.Commands.Refunds.{refund_order, reject_order}
use openbazaar.Commands.Fulfillments.{fulfill_order}
use openbazaar.Commands.Rules.{Ends, Rule}
use openbazaar.Commands.Bodies.{
  confirm_body-Ends, cancel_body-Ends, refund_body-Ends, reject_body-Ends, fulfill_body-Ends,
}

-- A command and the ID of its order.
pub data Command : Type 0 where
  confirm cancel refund : Text → Command
  reject : Text → (reason : Text) → Command
  fulfill : Text → List Fulfillment → Command

pub run : Commander → Command → Exec Shop (Unit {0})
run c (confirm id) = confirm_order c id
run c (cancel id) = cancel_order c id
run c (refund id) = refund_order c id
run c (reject id reason) = reject_order c id reason
run c (fulfill id fs) = fulfill_order c id fs

-- A command reads, and then runs a transaction, if it comes so far.
record Leads {κ} (S : Result (Unit {0}) × Shop → Type κ) (m : Exec Shop (Unit {0})) (s : Shop)
    : Type κ where
  pub holds : S (m s)

module _ {κ} {S : Result (Unit {0}) × Shop → Type κ} {s : Shop}
    (stops : (r : Result (Unit {0})) → S (r, s)) where
  Leads-result :
      {A : Type 0} (r : Result A) (f : A → Exec Shop (Unit {0}))
      → ((a : A) → Leads S (f a) s)
      → Leads S ((λ t. (r, t)) >>= f) s
  unfolding ◌>>=◌
  Leads-result (ok a) f k = record { holds = (k a).holds }
  Leads-result (err e) f k = record { holds = stops (err e) }
  Leads-result panic f k = record { holds = stops panic }

  Leads-read :
      {A : Type 0} (g : Shop → Result A) (f : A → Exec Shop (Unit {0}))
      → ((a : A) → Leads S (f a) s)
      → Leads S ((λ t. (g t, t)) >>= f) s
  unfolding ◌>>=◌
  Leads-read g f k = record { holds = (Leads-result (g s) f k).holds }

module _ {ℓ κ μ} {c : Commander} {P : Deal → Type ℓ} {R : Result (Unit {0}) × Deal → Type κ}
    (S : Result (Unit {0}) × Shop → Type μ) (s : Shop) (rule : Rule c P R)
    (starts : P (begin_deal s)) (stops : (r : Result (Unit {0})) → S (r, s))
    (finishes : (x : Result (Unit {0}) × Deal) → R x → S (end_update c.node_env x s)) where
  Leads-update : {body : Exec Deal (Unit {0})} → Ends P R body → Leads S (update c body) s
  unfolding update
  Leads-update {body = body} e = record {
    holds = finishes (body (begin_deal s)) (e.holds (begin_deal s) starts);
  }

  run-Leads : (k : Command) → Leads S (run c k) s
  unfolding run confirm_order cancel_order refund_order reject_order fulfill_order
  run-Leads (confirm id) = Leads-read stops _ _ λ o. Leads-read stops _ _ λ _.
      Leads-read stops _ _
        λ to. Leads-read stops _ _ λ from. Leads-update (confirm_body-Ends rule o to from)
  run-Leads (cancel id) = Leads-read stops _ _ λ o. Leads-read stops _ _ λ _.
      Leads-read stops _ _
        λ from. Leads-read stops _ _ λ to. Leads-update (cancel_body-Ends rule o from to)
  run-Leads (refund id) = Leads-read stops _ _ λ o. Leads-read stops _ _ λ m.
      Leads-read stops _ _ λ to.
        Leads-read stops _ _
          λ from. Leads-read stops _ _ λ _. Leads-update (refund_body-Ends rule o m to from)
  run-Leads (reject id reason) = Leads-read stops _ _ λ o. Leads-read stops _ _ λ _.
      Leads-read stops _ _ λ to. Leads-read stops _ _ λ from. Leads-read stops _ _ λ resp.
        Leads-read stops _ _ λ message. Leads-read stops _ _ λ funded. Leads-read stops _ _ λ m.
          Leads-read stops _ _
            λ p. Leads-update (reject_body-Ends rule o p funded to from resp message)
  run-Leads (fulfill id fs) = Leads-read stops _ _ λ o. Leads-read stops _ _ λ m.
      Leads-read stops _ _ λ items. Leads-read stops _ _ λ can. Leads-read stops _ _ λ _.
        Leads-read stops _ _
          λ to. Leads-read stops _ _ λ from. Leads-update (fulfill_body-Ends rule o m items to from)

  pub run_lem : (k : Command) → S (run c k s)
  run_lem k = (run-Leads k).holds
