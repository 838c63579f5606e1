-- ===== src/Commands/Life.antt =====
-- core/: the life of a node, in which messages come in and its user gives commands, in any order.
use openbazaar.Prelude.{◌≡◌, subst, sym, []}
use openbazaar.Proto.Common.{Text}
use openbazaar.Proto.Net.{NetMessage}
use openbazaar.Processor.Env.{Env}
use openbazaar.Node.Defs.{NodeEnv}
use openbazaar.Node.Orders.{handle_order_message}
use openbazaar.Node.Rows.{AreConsistent, handle_order_message-AreConsistent}
use openbazaar.Commands.Defs.{Commander, Shop}
use openbazaar.Commands.Run.{Command, run}
use openbazaar.Commands.Atomic.{run-AreConsistent}

-- One message from a peer, or one command that confirms, cancels, refunds, rejects or fulfils an order; the
-- libraries, wallets and database may answer differently each time, and either may fail. The purchase, the
-- completion, the dispute and the wallet's notices of transactions are no steps.
pub data Step : Shop → Shop → Type 0 where
  receives :
      (env : Env) (ne : NodeEnv) (from : Text) (m : NetMessage) (s : Shop)
      → Step s (record s { node = (handle_order_message env ne from m s.node).1 })
  commands : (c : Commander) (k : Command) (s : Shop) → Step s (run c k s).1

pub data Reach (s : Shop) : Shop → Type 0 where
  here : Reach s s
  next : {t u : Shop} → Reach s t → Step t u → Reach s u

Step-AreConsistent :
    (s t : Shop) → Step s t → AreConsistent s.node.orders → AreConsistent t.node.orders
Step-AreConsistent s _ (receives env ne from m _) h =
    handle_order_message-AreConsistent env ne from m s.node h
Step-AreConsistent s _ (commands c k _) h = run-AreConsistent c k s h

-- Of the orders of a node that starts with none, whatever messages come in and whatever orders its user
-- confirms, cancels, refunds, rejects or fulfils, in any order of these steps, with whatever answers of the
-- libraries, the wallets and the database, at every time none is both rejected and confirmed, each that is
-- fulfilled was confirmed, each that has another message than a rejection has the ORDER_OPEN too, and none
-- has a message that the processor never saves.
pub Reach-AreConsistent :
    (s t : Shop) → s.node.orders ≡ [] → Reach s t → AreConsistent t.node.orders
Reach-AreConsistent s _ e here = subst (λ os. AreConsistent os) (sym e) tt
Reach-AreConsistent s u e (next {t = t} r step) =
    Step-AreConsistent t u step (Reach-AreConsistent s t e r)
