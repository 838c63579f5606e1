-- ===== src/Commands/Release.antt =====
-- core/cancel.go and core/refund.go: releaseFromCancelableAddress and buildEscrowRelease, which spend the
-- outputs at the payment address of an order.
use openbazaar.Prelude.{
  ℕ, ◌-◌, ◌%◌, ◌^◌, List, [], ◌∷◌, ◌++◌, map, not, ◌&&◌, str_eq, bytes_eq, exists_in, is_nil,
  length, if◌then◌else◌,
}
use openbazaar.Prelude.Int.{ℤ, pos, ◌+ℤ◌, ◌-ℤ◌}
use openbazaar.Pricing.Amounts.{◌*ℤ◌}
use openbazaar.Exec.{
  Result, ok, bind_result, or_external, or_panic, fail_if, Exec, pure, lift, ◌>>=◌, ◌>>◌, no_escrow,
  not_cancelable, no_funds,
}
use openbazaar.Proto.Common.{Bytes, Text}
use openbazaar.Proto.Orders.{Payment, EscrowSig, EscrowRelease}
use openbazaar.Proto.Codec.{SpendInfo, Transaction}
use openbazaar.Order.Defs.{Order}
use openbazaar.Order.Read.{order_open_message, get_transactions}
use openbazaar.Order.Status.{is_cancelable}
use openbazaar.Processor.Env.{Env, Wallet}
use openbazaar.Commands.Defs.{by_escrow, Purse, Commander, Deal, Pending, begin_wallet}

-- The map `spent`: its keys are the hex of the inputs' IDs, here the IDs.
unfoldable pub spent_ids : List Transaction → List Bytes
spent_ids [] = []
spent_ids (tx ∷ txs) = map SpendInfo.id tx.from ++ spent_ids txs

-- `txn.From` and `totalOut`.
pub record Sweep : Type 0 where
  pub from : List SpendInfo
  pub total : ℤ

abbrev pub add_output : List Bytes → Text → SpendInfo → Sweep → Sweep
add_output spent address out s =
    if not (exists_in (bytes_eq out.id) spent) && str_eq out.address address
    then record { from = s.from ++ out ∷ []; total = s.total +ℤ out.amount }
    else s

unfoldable pub sweep_outputs : List Bytes → Text → List SpendInfo → Sweep → Sweep
sweep_outputs spent address [] s = s
sweep_outputs spent address (out ∷ outs) s =
    sweep_outputs spent address outs (add_output spent address out s)

unfoldable pub sweep_all : List Bytes → Text → List Transaction → Sweep → Sweep
unfolding sweep_outputs
sweep_all spent address [] s = s
sweep_all spent address (tx ∷ txs) s =
    sweep_all spent address txs (sweep_outputs spent address tx.to s)

-- The two loops over the transactions of the order.
unfoldable pub sweep : Text → List Transaction → Sweep
unfolding spent_ids sweep_all
sweep address txs = sweep_all (spent_ids txs) address txs (record { from = []; total = pos 0 })

-- The transaction that spends the inputs, less a fee.
unfoldable pub spend_to : Text → ℤ → Sweep → Transaction
spend_to to fee s = record {
  txid = "";
  from = s.from;
  to = record { id = []; address = to; amount = s.total -ℤ fee } ∷ [];
  value = pos 0;
  timestamp = 0;
}

-- The whole fee for one input, and half of it for each other.
unfoldable pub release_fee : Commander → ℤ → ℕ → ℤ
release_fee c fee inputs = fee +ℤ c.half fee *ℤ pos (inputs - 1)

-- A signed transaction with its script, before the wallet's own transaction.
abbrev pub SignedRelease : Type 0
SignedRelease = Purse × Transaction × List EscrowSig × Bytes

unfoldable pub sign_release : Commander → Purse → Payment → Transaction → Result SignedRelease
sign_release c purse p txn = bind_result (or_external (Env.decode_hex c.env p.script)) λ script.
    bind_result (or_external (Env.decode_hex c.env p.chaincode)) λ chaincode.
      bind_result (or_external (Wallet.sign_multisig purse.wallet txn chaincode script))
        λ sigs. ok (purse, txn, sigs, script)

unfoldable pub release_to :
    Commander → Purse → Payment → Text → List Transaction → Result SignedRelease
unfolding sweep spend_to release_fee sign_release
release_to c purse p to txs =
    let s = sweep p.address txs in
    bind_result (fail_if (is_nil s.from) no_funds) λ _.
      bind_result (or_external (purse.escrow_fee 1))
        λ fee. sign_release c purse p (spend_to to (release_fee c fee (length s.from)) s)

unfoldable pub cancelable_release : Commander → Order → Result SignedRelease
unfolding release_to
cancelable_release c o = bind_result (order_open_message (Env.codec c.env) o) λ m.
    bind_result (or_panic m.payment) λ p.
      bind_result (fail_if (not (is_cancelable p.method)) not_cancelable) λ _.
        bind_result (or_external (c.purse_for p.coin)) λ purse.
          bind_result (or_external purse.current_address) λ to.
            bind_result (fail_if (not (Wallet.is_escrow purse.wallet)) no_escrow) λ _.
              bind_result (get_transactions (Env.codec c.env) o.transactions)
                λ txs. release_to c purse p to txs

unfoldable pub release_from_cancelable_address : Commander → Order → Exec Deal Pending
unfolding cancelable_release begin_wallet
release_from_cancelable_address c o = do
  (purse, txn, sigs, script) ← lift (cancelable_release c o)
  begin_wallet purse
  txid ← lift (or_external (Purse.build_and_send purse txn (sigs ∷ []) script))
  pure (record { purse = purse; txid = txid; spends = by_escrow txn (sigs ∷ []) ∷ [] })

-- buildEscrowRelease; an index becomes a uint32.
unfoldable pub build_escrow_release : Commander → Order → Purse → Text → ℤ → Result EscrowRelease
unfolding sweep spend_to
build_escrow_release c o purse to fee =
    bind_result (fail_if (not (Wallet.is_escrow purse.wallet)) no_escrow) λ _.
      bind_result (get_transactions (Env.codec c.env) o.transactions) λ txs.
        bind_result (order_open_message (Env.codec c.env) o) λ m.
          bind_result (or_panic m.payment) λ p.
            let s = sweep p.address txs in
            let txn = spend_to to fee s in
            bind_result (or_external (Env.decode_hex c.env p.script)) λ script.
              bind_result (or_external (Env.decode_hex c.env p.chaincode)) λ chaincode.
                bind_result (or_external (Wallet.sign_multisig purse.wallet txn chaincode script))
                  λ sigs. ok (record {
                    escrow_signatures =
                        map
                          (λ g. record {
                            from = [];
                            signature = EscrowSig.signature g;
                            index = g.index % 2 ^ 32;
                          })
                          sigs;
                    from_ids = map SpendInfo.id s.from;
                    to_address = to;
                    to_amount = c.show (s.total -ℤ fee);
                    transaction_fee = c.show fee;
                  })
