-- ===== src/Processor/Escrow.antt =====
-- orders/order_complete.go and orders/refund.go: the release of escrowed funds.
use openbazaar.Prelude.{List, [], ◌∷◌, ◌++◌, map, not, str_eq, head?, if◌then◌else◌}
use openbazaar.Prelude.Int.{pos}
use openbazaar.Exec.{
  Result, ok, err, bind_result, or_external, or_panic, fail_if, Exec, lift, ◌>>=◌, ◌>>◌, no_escrow,
  wrong_address, invalid_amount, external,
}
use openbazaar.Proto.Common.{Bytes}
use openbazaar.Proto.Orders.{OrderOpen, OrderFulfillment, EscrowRelease, EscrowSig, Payment}
use openbazaar.Proto.Codec.{Codec, Transaction}
use openbazaar.Processor.Env.{Env, Wallet, World}

-- The transaction that a release asks for: one output, and the inputs by their IDs alone.
release_transaction : Codec → EscrowRelease → Transaction
release_transaction c r = record {
  txid = "";
  from = map (λ id. record { id = id; address = ""; amount = pos 0 }) r.from_ids;
  to = record { id = []; address = r.to_address; amount = c.new_amount r.to_amount } ∷ [];
  value = pos 0;
  timestamp = 0;
}

-- The index and the signature of each entry are copied.
abbrev escrow_signatures : List EscrowSig → List EscrowSig
escrow_signatures sigs =
    map (λ s. record { from = []; signature = EscrowSig.signature s; index = s.index }) sigs

-- Begin, BuildAndSend and Commit.
send_release : Wallet → Transaction → List (List EscrowSig) → Bytes → Exec World (Unit {0})
send_release wallet tx sigs script w =
    if wallet.build_and_send tx sigs script
    then (ok tt, record w { released = w.released ++ tx ∷ [] })
    else (err external, w)

-- `fulfillments[0].ReleaseInfo`
first_release : List OrderFulfillment → Result EscrowRelease
first_release fs = bind_result (or_panic (head? fs)) λ f. or_panic f.release_info

unfoldable pub release_complete_escrow_funds :
    Env → Wallet → OrderOpen → List OrderFulfillment → EscrowRelease → Exec World (Unit {0})
unfolding release_transaction send_release first_release
release_complete_escrow_funds env wallet opened fulfillments r = do
  lift (fail_if (not wallet.is_escrow) no_escrow)
  first ← lift (first_release fulfillments)
  lift (fail_if (not (str_eq r.to_address (EscrowRelease.to_address first))) wrong_address)
  lift (fail_if (not (env.is_integer r.to_amount)) invalid_amount)
  p ← lift (or_panic opened.payment)
  script ← lift (or_external (env.decode_hex (Payment.script p)))
  send_release wallet (release_transaction env.codec r)
      (escrow_signatures r.escrow_signatures
        ∷ escrow_signatures (EscrowRelease.escrow_signatures first)
        ∷ [])
      script

-- The buyer's key is derived from the chain code inside `sign_multisig`.
unfoldable pub release_refund_escrow_funds :
    Env → Wallet → OrderOpen → EscrowRelease → Exec World (Unit {0})
unfolding release_transaction send_release
release_refund_escrow_funds env wallet opened r = do
  lift (fail_if (not wallet.is_escrow) no_escrow)
  lift (fail_if (not (str_eq r.to_address opened.refund_address)) wrong_address)
  lift (fail_if (not (env.is_integer r.to_amount)) invalid_amount)
  p ← lift (or_panic opened.payment)
  script ← lift (or_external (env.decode_hex (Payment.script p)))
  chaincode ← lift (or_external (env.decode_hex (Payment.chaincode p)))
  buyer_sigs ←
      lift (or_external (wallet.sign_multisig (release_transaction env.codec r) chaincode script))
  send_release wallet (release_transaction env.codec r)
      (buyer_sigs ∷ escrow_signatures r.escrow_signatures ∷ []) script
