-- ===== src/Processor/Completion.antt =====
-- orders/order_complete.go and orders/refund.go: the handlers.
use openbazaar.Prelude.{
  Bool, true, false, Option, none, some, List, [], ◌∷◌, ◌++◌, ◌==◌, ◌&&◌, not, is_some, str_eq,
  length, if◌then◌else◌,
}
use openbazaar.Exec.{
  Error, Result, ok, err, panic, or_external, or_panic, fail_if, Exec, pure, raise, lift, gets,
  modify, ◌>>=◌, ◌>>◌, unexpected_message, duplicate_transaction, wrong_rating_count,
}
use openbazaar.Proto.Net.{OrderMessage}
use openbazaar.Proto.Orders.{
  OrderOpen, OrderComplete, Payment, Method, direct, moderated, Rating, Refund, EscrowRelease,
}
use openbazaar.Proto.Codec.{complete_kind, refund_kind}
use openbazaar.Order.Defs.{is_role_buyer, is_role_vendor}
use openbazaar.Order.Read.{vendor_of, order_fulfillment_messages}
use openbazaar.Order.Put.{put_message, refund_transaction_id, refund_release_info}
use openbazaar.Processor.Events.{completed, refunded, notice_of}
use openbazaar.Processor.Env.{Env, Wallet, World, on_order, returning}
use openbazaar.Processor.Guards.{seen_before, with_order_open}
use openbazaar.Processor.Payments.{logged}
use openbazaar.Processor.Decisions.{note_release}
use openbazaar.Processor.Escrow.{release_complete_escrow_funds, release_refund_escrow_funds}

abbrev pub is_direct : Method → Bool
is_direct direct = true
is_direct _ = false

abbrev pub is_moderated : Method → Bool
is_moderated moderated = true
is_moderated _ = false

-- An error that a check returns, or none.
abbrev failing : Option Error → Result (Unit {0})
failing none = ok tt
failing (some e) = err e

unfoldable pub validate_ratings : Env → List Rating → Result (Unit {0})
validate_ratings env [] = ok tt
validate_ratings env (r ∷ rs) =
    let rest = validate_ratings env rs in
    elim (env.validate_rating r) [ none ↦ rest | some e ↦ err e ]

-- The vendor stores each rating, up to the first that fails.
unfoldable pub store_ratings : Env → List Rating → Exec World (Unit {0})
store_ratings env [] = pure tt
store_ratings env (r ∷ rs) =
    let rest = store_ratings env rs in
    lift (failing (env.add_rating r))
    >> modify (λ w. record w { ratings = w.ratings ++ r ∷ [] })
    >> rest

-- The release of the escrow on completion, whose error is only logged.
unfoldable pub release_on_complete :
    Env → Wallet → OrderOpen → Option EscrowRelease → Method → Exec World (Unit {0})
release_on_complete env wallet opened none method = pure tt
release_on_complete env wallet opened (some r) method = do
  o ← gets (λ w. w.order)
  if is_role_vendor o.my_role && is_moderated method && not (is_some o.dispute_open.serialized)
      then (do
        fulfillments ← lift (order_fulfillment_messages env.codec o)
        logged (release_complete_escrow_funds env wallet opened fulfillments r))
      else pure tt

finish_complete : Env → OrderMessage → OrderComplete → OrderOpen → Exec World (Unit {0})
unfolding validate_ratings store_ratings release_on_complete
finish_complete env m complete opened = do
  lift (fail_if (not (length complete.ratings == length opened.items)) wrong_rating_count)
  lift (validate_ratings env complete.ratings)
  o ← gets (λ w. w.order)
  if is_role_vendor o.my_role then store_ratings env complete.ratings else pure tt
  p ← lift (or_panic opened.payment)
  wallet ← lift (or_external (env.wallet_for (Payment.coin p)))
  release_on_complete env wallet opened complete.release_info (Payment.method p)
  n ← lift (notice_of o.id opened (or_panic opened.buyer_id))
  returning (completed n) (on_order (put_message env.codec m))

unfoldable pub process_order_complete : Env → OrderMessage → Exec World (Unit {0})
unfolding finish_complete
process_order_complete env m = do
  msg ← lift (or_external (env.codec.unmarshal_any complete_kind m.message))
  o ← gets (λ w. w.order)
  dup ← lift (seen_before env.codec complete_kind msg o.order_complete.serialized)
  if dup then pure tt else (do
    lift (fail_if (is_some o.order_cancel.serialized) unexpected_message)
    with_order_open env m (finish_complete env m msg))

-- The release of a moderated refund, whose error is only logged.
unfoldable pub release_on_refund :
    Env → Wallet → OrderOpen → Option EscrowRelease → Method → Exec World (Unit {0})
release_on_refund env wallet opened none method = pure tt
release_on_refund env wallet opened (some r) method = do
  o ← gets (λ w. w.order)
  if is_role_buyer o.my_role && is_moderated method
      then logged (release_refund_escrow_funds env wallet opened r)
      else pure tt

-- The rest of processRefundMessage, once the message is saved.
unfoldable pub saved_refund : Env → Refund → OrderOpen → Exec World (Unit {0})
unfolding release_on_refund
saved_refund env refund opened = do
  p ← lift (or_panic opened.payment)
  wallet ← lift (or_external (env.wallet_for (Payment.coin p)))
  if not (str_eq (refund_transaction_id refund.refund_info) "") && is_direct (Payment.method p)
      then note_release env wallet (refund_transaction_id refund.refund_info)
      else release_on_refund env wallet opened (refund_release_info refund.refund_info)
          (Payment.method p)
  id ← gets (λ w. w.order.id)
  n ← lift (notice_of id opened (vendor_of opened))
  returning (refunded n) (pure tt)

-- A duplicate ends the handler without error.
abbrev pub unless_duplicate : Result (Unit {0}) → Exec World (Unit {0}) → Exec World (Unit {0})
unless_duplicate (ok u) k = k
unless_duplicate (err duplicate_transaction) k = pure tt
unless_duplicate (err e) k = raise e
unless_duplicate panic k = lift panic

finish_refund : Env → OrderMessage → Refund → OrderOpen → Exec World (Unit {0})
unfolding saved_refund
finish_refund env m refund opened w =
    let (r, o) = put_message env.codec m w.order in
    unless_duplicate r (saved_refund env refund opened) (record w { order = o })

unfoldable pub process_refund : Env → OrderMessage → Exec World (Unit {0})
unfolding finish_refund
process_refund env m = do
  msg ← lift (or_external (env.codec.unmarshal_any refund_kind m.message))
  o ← gets (λ w. w.order)
  lift (fail_if (is_some o.order_cancel.serialized) unexpected_message)
  with_order_open env m (finish_refund env m msg)
