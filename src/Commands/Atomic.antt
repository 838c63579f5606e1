-- ===== src/Commands/Atomic.antt =====
-- core/: a node and its wallets after a command, whichever it is and however it ends.
use openbazaar.Prelude.{Option, none, some, ◌≡◌, refl, sym, subst, ◌⊎◌, inl, inr, Bool-cases}
use openbazaar.Exec.{Result, ok, err, panic}
use openbazaar.Machine.Saved.{process_message_top-IsConsistent}
use openbazaar.Node.Defs.{NodeEnv, find_order}
use openbazaar.Node.Rows.{AreConsistent, find_order-Fine, save_if-AreConsistent}
use openbazaar.Commands.Defs.{
  Purse, Commander, Shop, Deal, Pending, begin_deal, end_update, begin_wallet, roll_back_wallet,
  commit_wallet, process, send,
}
use openbazaar.Commands.Rules.{Rule}
use openbazaar.Commands.Run.{Command, run, run_lem}

begin_wallet-keeps :
    (p : Purse) (d : Deal)
    → ((begin_wallet p d).1.orders ≡ d.orders) × ((begin_wallet p d).1.paid ≡ d.paid)
unfolding begin_wallet
begin_wallet-keeps p d = elim (Bool-cases p.can_begin) [
  | inl e ↦ rw e (refl, refl)
  | inr e ↦ rw e (refl, refl)
]

roll_back_wallet-keeps :
    (p : Option Pending) (d : Deal)
    → ((roll_back_wallet p d).orders ≡ d.orders) × ((roll_back_wallet p d).paid ≡ d.paid)
roll_back_wallet-keeps none d = (refl, refl)
roll_back_wallet-keeps (some p) d = (refl, refl)

-- A commit leaves the database alone, and pays only if it succeeds.
commit_wallet-keeps :
    (p : Option Pending) (d : Deal)
    → ((commit_wallet p d).1.orders ≡ d.orders)
      × (((commit_wallet p d).0 ≡ ok tt) ⊎ ((commit_wallet p d).1.paid ≡ d.paid))
commit_wallet-keeps none d = (refl, inr refl)
commit_wallet-keeps (some p) d = elim (Bool-cases p.purse.can_commit) [
  | inl e ↦ rw e (refl, inl refl)
  | inr e ↦ rw e (refl, inr refl)
]

abbrev Consistent : Deal → Type 0
Consistent d = AreConsistent d.orders

Consistent-rule : (c : Commander) → Rule c Consistent (λ x. Consistent (x.1))
unfolding process send
Consistent-rule c = record {
  weaken = λ r d h. h;
  processes = λ from m. record {
    holds = λ d h.
        save_if-AreConsistent _ d.orders
          (process_message_top-IsConsistent c.env from m (find_order m.order_id d.orders) d.world
            (find_order-Fine m.order_id d.orders h))
          h;
  };
  sends = λ to m. record { holds = λ d h. h };
  begins = λ p. record {
    holds = λ d h. subst (λ os. AreConsistent os) (sym (begin_wallet-keeps p d).0) h;
  };
  rolls_back = λ p d h. subst (λ os. AreConsistent os) (sym (roll_back_wallet-keeps p d).0) h;
  commits = λ p. record {
    holds = λ d h. subst (λ os. AreConsistent os) (sym (commit_wallet-keeps p d).0) h;
  };
}

end_update-AreConsistent :
    (ne : NodeEnv) (s : Shop) (x : Result (Unit {0}) × Deal)
    → AreConsistent s.node.orders
    → AreConsistent x.1.orders
    → AreConsistent (end_update ne x s).1.node.orders
end_update-AreConsistent ne s (ok u, d) h k = elim (Bool-cases ne.can_commit) [
  | inl e ↦ rw e k
  | inr e ↦ rw e h
]
end_update-AreConsistent ne s (err e, d) h k = h
end_update-AreConsistent ne s (panic, d) h k = h

-- A command of the node's user keeps every order consistent: confirming, cancelling, refunding,
-- rejecting or fulfilling an order, with whatever answers of the libraries, the wallet and the database,
-- and however the command ends.
pub run-AreConsistent :
    (c : Commander) (k : Command) (s : Shop)
    → AreConsistent s.node.orders
    → AreConsistent (run c k s).1.node.orders
unfolding begin_deal
run-AreConsistent c k s h =
    run_lem (λ x. AreConsistent (x.1.node.orders)) s (Consistent-rule c) h (λ r. h)
      (λ x i. end_update-AreConsistent c.node_env s x h i) k
