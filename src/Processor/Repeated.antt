-- ===== src/Processor/Repeated.antt =====
-- orders/: a message of which an order keeps one, when the order has one already.
use openbazaar.Prelude.{
  Bool, true, false, some, ◌≡◌, refl, bytes_eq, if◌then◌else◌, Bool-cases, inl, inr,
}
use openbazaar.Exec.{Result, ok, err, ◌>>=◌, changed_message}
use openbazaar.Proto.Common.{Bytes, Text}
use openbazaar.Proto.Net.{
  MessageType, OrderMessage, order_reject, order_cancel, order_confirmation, rating_signatures,
  order_complete, dispute_open,
}
use openbazaar.Proto.Codec.{
  Codec, Kind, Body, reject_kind, cancel_kind, confirmation_kind, rating_signatures_kind,
  complete_kind, dispute_open_kind,
}
use openbazaar.Order.Fields.{field}
use openbazaar.Processor.Env.{Env, World}
use openbazaar.Processor.Guards.{is_duplicate, seen_before}
use openbazaar.Processor.Decisions.{
  process_order_reject, process_order_cancel, process_order_confirmation,
}
use openbazaar.Processor.Progress.{process_rating_signatures}
use openbazaar.Processor.Completion.{process_order_complete}
use openbazaar.Processor.Disputes.{process_dispute_open}
use openbazaar.Processor.Process.{handle}

-- The handlers that begin with the test of a duplicate, and the kind that they test.
pub data Tested : MessageType → Kind → Type 0 where
  tests_reject : Tested order_reject reject_kind
  tests_cancel : Tested order_cancel cancel_kind
  tests_confirmation : Tested order_confirmation confirmation_kind
  tests_rating_signatures : Tested rating_signatures rating_signatures_kind
  tests_complete : Tested order_complete complete_kind
  tests_dispute_open : Tested dispute_open dispute_open_kind

abbrev pub answer : Bool → Result (Unit {0})
answer true = ok tt
answer false = err changed_message

seen_before_lem :
    (c : Codec) (k : Kind) (msg : Body k) (b saved : Bytes)
    → c.marshal_json k msg ≡ some b
    → seen_before c k msg (some saved) ≡ (if bytes_eq b saved then ok true else err changed_message)
unfolding seen_before is_duplicate
seen_before_lem c k msg b saved h = elim (Bool-cases (bytes_eq b saved)) [
  | inl e ↦ rw (h, e) refl
  | inr e ↦ rw (h, e) refl
]

-- A reject, cancel, confirmation, set of rating signatures, completion or dispute for an order that
-- has one of its type already changes nothing, neither in the order nor outside it: it is accepted
-- if its document is that which is saved, and refused as a changed message if not.
pub handle_seen :
    (env : Env) (peer : Text) (m : OrderMessage) (w : World) (t : MessageType) {k : Kind}
    (msg : Body k) (b saved : Bytes)
    → Tested t k
    → env.codec.unmarshal_any k m.message ≡ some msg
    → env.codec.marshal_json k msg ≡ some b
    → field t w.order ≡ some saved
    → handle t env peer m w ≡ (answer (bytes_eq b saved), w)
unfolding handle process_order_reject process_order_cancel process_order_confirmation
    process_rating_signatures process_order_complete process_dispute_open ◌>>=◌
handle_seen env peer m w t msg b saved tests_reject hm hb hf =
    elim (Bool-cases (bytes_eq b saved)) [
      | inl e ↦ rw (hm, hf, seen_before_lem env.codec _ msg b saved hb, e) refl
      | inr e ↦ rw (hm, hf, seen_before_lem env.codec _ msg b saved hb, e) refl
    ]
handle_seen env peer m w t msg b saved tests_cancel hm hb hf =
    elim (Bool-cases (bytes_eq b saved)) [
      | inl e ↦ rw (hm, hf, seen_before_lem env.codec _ msg b saved hb, e) refl
      | inr e ↦ rw (hm, hf, seen_before_lem env.codec _ msg b saved hb, e) refl
    ]
handle_seen env peer m w t msg b saved tests_confirmation hm hb hf =
    elim (Bool-cases (bytes_eq b saved)) [
      | inl e ↦ rw (hm, hf, seen_before_lem env.codec _ msg b saved hb, e) refl
      | inr e ↦ rw (hm, hf, seen_before_lem env.codec _ msg b saved hb, e) refl
    ]
handle_seen env peer m w t msg b saved tests_rating_signatures hm hb hf =
    elim (Bool-cases (bytes_eq b saved)) [
      | inl e ↦ rw (hm, hf, seen_before_lem env.codec _ msg b saved hb, e) refl
      | inr e ↦ rw (hm, hf, seen_before_lem env.codec _ msg b saved hb, e) refl
    ]
handle_seen env peer m w t msg b saved tests_complete hm hb hf =
    elim (Bool-cases (bytes_eq b saved)) [
      | inl e ↦ rw (hm, hf, seen_before_lem env.codec _ msg b saved hb, e) refl
      | inr e ↦ rw (hm, hf, seen_before_lem env.codec _ msg b saved hb, e) refl
    ]
handle_seen env peer m w t msg b saved tests_dispute_open hm hb hf =
    elim (Bool-cases (bytes_eq b saved)) [
      | inl e ↦ rw (hm, hf, seen_before_lem env.codec _ msg b saved hb, e) refl
      | inr e ↦ rw (hm, hf, seen_before_lem env.codec _ msg b saved hb, e) refl
    ]
