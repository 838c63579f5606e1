-- ===== src/Commands/Defs.antt =====
-- core/: the state of a node while a command runs, and the steps that the commands share.
use openbazaar.Prelude.{ℕ, ◌+◌, ◌-◌, Bool, Option, none, some, List, ◌++◌, if◌then◌else◌}
use openbazaar.Prelude.Int.{ℤ}
use openbazaar.Exec.{Result, ok, err, panic, bind_result, or_external, Exec, ◌>>◌, external}
use openbazaar.Proto.Common.{Bytes, Text}
use openbazaar.Proto.Net
use openbazaar.Proto.Net.{NetMessage, OrderMessage}
use openbazaar.Proto.Orders.{EscrowSig}
use openbazaar.Proto.Codec.{Transaction}
use openbazaar.Order.Defs.{Order}
use openbazaar.Processor.Events.{Event}
use openbazaar.Processor.Env.{Env, Wallet, World, reliably_send}
use openbazaar.Processor.Process.{process_message_top}
use openbazaar.Node.Defs.{Node, NodeEnv, find_order, save_order}
use openbazaar.Node.Orders.{begin, after_rollback, save_if}

-- models/fulfillment.go: which of the three deliveries is set; the item's index is an int.
pub data Delivery : Type 0 where
  no_delivery : Delivery
  physical_delivery : (shipper tracking_number : Text) → Delivery
  digital_delivery : (url password : Text) → Delivery
  cryptocurrency_delivery : (transaction_id : Text) → Delivery

pub record Fulfillment : Type 0 where
  pub item_index : ℤ
  pub note : Text
  pub delivery : Delivery

-- What a wallet transaction sends when it is committed: a release of escrowed money with the signatures,
-- or an amount of the wallet's own to an address.
pub data Spend : Type 0 where
  by_escrow : Transaction → List (List EscrowSig) → Spend
  by_wallet : Text → ℤ → Spend

-- iwallet.Wallet with the methods that the commands call; `none` and `false` are errors.
pub record Purse : Type 0 where
  pub wallet : Wallet
  pub current_address : Option Text
  pub new_address : Option Text
  -- EstimateEscrowFee of a threshold
  pub escrow_fee : ℕ → Option ℤ
  pub can_begin : Bool
  -- BuildAndSend and Spend: the ID of the transaction
  pub build_and_send : Transaction → List (List EscrowSig) → Bytes → Option Text
  pub spend : Text → ℤ → Option Text
  pub can_commit : Bool

pub record Commander : Type 0 where
  pub env : Env
  pub node_env : NodeEnv
  -- the ID of the first and of the second message that the command makes
  pub random_id : ℕ → Text
  -- multiwallet.WalletForCurrencyCode
  pub purse_for : Text → Option Purse
  -- Amount.Div by two, Amount.String
  pub half : ℤ → ℤ
  pub show : ℤ → Text
  -- the wire form of a note and a delivery
  pub wire : Text → Delivery → Bytes

-- A node with its wallets: how many of their transactions are begun and not ended, and what was sent.
pub record Shop : Type 0 where
  pub node : Node
  pub unended : ℕ
  pub paid : List Spend

-- A database transaction in progress: the orders as it sees them, and the wallets.
pub record Deal : Type 0 where
  pub orders : List Order
  pub world : World
  pub unended : ℕ
  pub paid : List Spend

-- A wallet transaction that is begun, what it sends when it is committed, and the ID that it has then.
pub record Pending : Type 0 where
  pub purse : Purse
  pub txid : Text
  pub spends : List Spend

unfoldable pub begin_deal : Shop → Deal
begin_deal s = record {
  orders = s.node.orders;
  world = begin s.node;
  unended = s.unended;
  paid = s.paid;
}

-- What a failed transaction leaves.
abbrev pub undone_deal : Deal → Shop → Shop
undone_deal d s = record {
  node = after_rollback d.world s.node;
  unended = d.unended;
  paid = d.paid;
}

abbrev pub saved_deal : Deal → Shop → Shop
saved_deal d s = record {
  node = record (s.node) {
    orders = d.orders;
    world = d.world;
    emitted = s.node.emitted ++ d.world.hooks;
  };
  unended = d.unended;
  paid = d.paid;
}

-- `n.repo.DB().Update(body)`
abbrev pub end_update : NodeEnv → Result (Unit {0}) × Deal → Shop → Result (Unit {0}) × Shop
end_update ne (ok u, d) s =
    if ne.can_commit then (ok tt, saved_deal d s) else (err external, undone_deal d s)
end_update ne (err e, d) s = (err e, undone_deal d s)
end_update ne (panic, d) s = (panic, undone_deal d s)

unfoldable pub update : Commander → Exec Deal (Unit {0}) → Exec Shop (Unit {0})
unfolding begin_deal
update c body s = end_update c.node_env (body (begin_deal s)) s

-- `wallet.Begin()`
unfoldable pub begin_wallet : Purse → Exec Deal (Unit {0})
begin_wallet p d =
    if p.can_begin then (ok tt, record d { unended = d.unended + 1 }) else (err external, d)

-- `wTx.Rollback()`, where there is a wallet transaction.
abbrev pub roll_back_wallet : Option Pending → Deal → Deal
roll_back_wallet none d = d
roll_back_wallet (some p) d = record d { unended = d.unended - 1 }

-- `wTx.Commit()`; a commit that fails ends the transaction too.
abbrev pub commit_wallet : Option Pending → Exec Deal (Unit {0})
commit_wallet none d = (ok tt, d)
commit_wallet (some p) d =
    if p.purse.can_commit
    then (ok tt, record d { unended = d.unended - 1; paid = d.paid ++ p.spends })
    else (err external, record d { unended = d.unended - 1 })

-- `if err := m; err != nil { wTx.Rollback(); return err }`
abbrev pub or_roll_back : {A : Type 0} → Option Pending → Exec Deal A → Exec Deal A
or_roll_back p m d =
    let (r, t) = m d in
    elim r [ ok a ↦ (ok a, t) | err e ↦ (err e, roll_back_wallet p t) | panic ↦ (panic, t) ]

-- `n.orderProcessor.ProcessMessage(tx, from, m)`: the event that it returns is dropped.
abbrev pub dropped : Result (Option Event) → Result (Unit {0})
dropped (ok e) = ok tt
dropped (err e) = err e
dropped panic = panic

unfoldable pub process : Commander → Text → OrderMessage → Exec Deal (Unit {0})
unfolding process_message_top find_order save_order
process c from m d =
    let out = process_message_top c.env from m (find_order m.order_id d.orders) d.world in
    (dropped out.result, record d { orders = save_if out.saved d.orders; world = out.world })

-- `n.messenger.ReliablySendMessage(tx, to, message, done)`
unfoldable pub send : Commander → Text → NetMessage → Exec Deal (Unit {0})
unfolding reliably_send
send c to m d = let (r, w) = reliably_send c.env to m d.world in (r, record d { world = w })

-- newMessageWithID with the signed message as its payload.
unfoldable pub carry_message : Commander → ℕ → OrderMessage → Result NetMessage
carry_message c i m = bind_result (or_external (Env.marshal_payload c.env m)) λ payload.
    ok (record {
      net_type = Net.NetType.order;
      message_id = c.random_id i;
      sequence = 0;
      payload = payload;
    })

-- The end of a command: the message is processed and queued, and the wallet transaction committed.
unfoldable pub settle :
    Commander → Option Pending → Text → OrderMessage → Text → NetMessage → Exec Deal (Unit {0})
unfolding process send
settle c pending from resp to message = do
  or_roll_back pending (process c from resp)
  or_roll_back pending (send c to message)
  commit_wallet pending
