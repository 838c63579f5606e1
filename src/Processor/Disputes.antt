-- ===== src/Processor/Disputes.antt =====
-- orders/dispute_open.go.
use openbazaar.Prelude.{Bool, ◌||◌, not, is_some, str_eq, if◌then◌else◌}
use openbazaar.Exec.{
  Result, ok, bind_result, or_external, or_panic, fail_if, Exec, pure, lift, gets, ◌>>=◌, ◌>>◌,
  unexpected_message, not_moderated,
}
use openbazaar.Proto.Common.{Text, PbId, Bytes}
use openbazaar.Proto.Net
use openbazaar.Proto.Net.{OrderMessage}
use openbazaar.Proto.Orders.{OrderOpen, Payment, Party, party_buyer, party_vendor, DisputeOpen}
use openbazaar.Proto.Codec.{dispute_open_kind, dispute_update_kind}
use openbazaar.Order.Defs.{Order, OrderRole, is_role_buyer, is_role_vendor}
use openbazaar.Order.Read.{vendor_of}
use openbazaar.Order.Put.{put_message}
use openbazaar.Order.Contract.{to_protobuf}
use openbazaar.Processor.Events.{Dispute, disputed, thumbnail_of}
use openbazaar.Processor.Env.{Env, World, on_order, returning, reliably_send}
use openbazaar.Processor.Guards.{seen_before, with_order_open}
use openbazaar.Processor.Payments.{own_message, carry}
use openbazaar.Processor.Completion.{is_moderated}

-- Who opened the dispute, and against whom.
parties : Party → PbId → PbId → PbId × PbId
parties party_buyer buyer vendor = (buyer, vendor)
parties party_vendor buyer vendor = (vendor, buyer)

dispute_event : Text → OrderOpen → Party → Result Dispute
unfolding parties
dispute_event id opened by = bind_result (or_panic opened.buyer_id) λ buyer.
    bind_result (vendor_of opened) λ vendor. bind_result (thumbnail_of opened) λ t.
      let (disputer, disputee) = parties by buyer vendor in
      ok (record {
        order_id = id;
        thumbnail = t;
        disputer_id = disputer.peer_id;
        disputer_handle = disputer.handle;
        disputee_id = disputee.peer_id;
        disputee_handle = disputee.handle;
      })

abbrev pub opened_by_us : OrderRole → Party → Bool
opened_by_us role party_buyer = is_role_buyer role
opened_by_us role party_vendor = is_role_vendor role

-- MarshalBinary
marshal_binary : Env → Order → Result Bytes
marshal_binary env o =
    bind_result (to_protobuf env.codec o) λ contract. or_external (env.marshal_contract contract)

-- The other party sends its view of the order to the moderator.
unfoldable pub send_dispute_update : Env → Payment → Exec World (Unit {0})
unfolding marshal_binary own_message carry
send_dispute_update env p = do
  o ← gets (λ w. w.order)
  contract ← lift (marshal_binary env o)
  resp ← lift (
      own_message env o.id Net.MessageType.dispute_update dispute_update_kind
        (record { timestamp = env.now; contract = contract }))
  msg ← lift (carry env Net.NetType.dispute resp)
  moderator ← lift (or_external (env.decode p.moderator))
  on_order (put_message env.codec resp)
  reliably_send env moderator msg

finish_dispute_open : Env → OrderMessage → Party → OrderOpen → Exec World (Unit {0})
unfolding dispute_event send_dispute_update
finish_dispute_open env m by opened = do
  p ← lift (or_panic opened.payment)
  lift (
      fail_if (str_eq (Payment.moderator p) "" || not (is_moderated (Payment.method p)))
        not_moderated)
  o ← gets (λ w. w.order)
  e ← lift (dispute_event o.id opened by)
  if opened_by_us o.my_role by then pure tt else send_dispute_update env p
  returning (disputed e) (on_order (put_message env.codec m))

-- `true` if a message that excludes a dispute is saved.
abbrev pub closed_to_disputes : Order → Bool
closed_to_disputes o =
    is_some o.order_complete.serialized
    || is_some o.payment_finalized.serialized
    || is_some o.order_reject.serialized
    || is_some o.order_cancel.serialized

unfoldable pub process_dispute_open : Env → OrderMessage → Exec World (Unit {0})
unfolding finish_dispute_open
process_dispute_open env m = do
  msg ← lift (or_external (env.codec.unmarshal_any dispute_open_kind m.message))
  o ← gets (λ w. w.order)
  dup ← lift (seen_before env.codec dispute_open_kind msg o.dispute_open.serialized)
  if dup then pure tt else (do
    lift (fail_if (closed_to_disputes o) unexpected_message)
    with_order_open env m (finish_dispute_open env m (DisputeOpen.opened_by msg)))
