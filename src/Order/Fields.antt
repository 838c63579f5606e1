-- ===== src/Order/Fields.antt =====
-- models/orders.go: which field a message type is kept in, and what PutMessage does to the fields.
use openbazaar.Prelude.{
  Option, none, some, [], ◌∷◌, ◌≡◌, ◌≢◌, refl, ◌∙◌, arith, Option-cases, inl, inr,
}
use openbazaar.Exec.{Result, ok}
use openbazaar.Proto.Common.{Bytes}
use openbazaar.Proto.Net.{
  MessageType, OrderMessage, order_open, order_reject, order_cancel, order_confirmation,
  rating_signatures, order_fulfillment, order_complete, dispute_open, dispute_update, dispute_close,
  refund, payment_sent, payment_finalized, other_type,
}
use openbazaar.Proto.Codec.{
  Codec, IsLawful, Kind, Body, open_kind, reject_kind, cancel_kind, confirmation_kind,
  rating_signatures_kind, complete_kind, dispute_open_kind, dispute_update_kind, dispute_close_kind,
  payment_finalized_kind,
}
use openbazaar.Order.Defs.{Order, Slot}
use openbazaar.Order.Read.{
  read_message, order_open_message, order_reject_message, order_cancel_message,
  order_confirmation_message, rating_signatures_message, order_complete_message,
  dispute_open_message, dispute_update_message, dispute_closed_message, payment_finalized_message,
}
use openbazaar.Order.Put.{put_message, put_by_type, put_single}

-- The field SerializedX in which an order keeps the messages of a type.
abbrev pub field : MessageType → Order → Option Bytes
field order_open o = o.order_open.serialized
field order_reject o = o.order_reject.serialized
field order_cancel o = o.order_cancel.serialized
field order_confirmation o = o.order_confirmation.serialized
field rating_signatures o = o.rating_signatures.serialized
field order_fulfillment o = o.order_fulfillments
field order_complete o = o.order_complete.serialized
field dispute_open o = o.dispute_open.serialized
field dispute_update o = o.dispute_update.serialized
field dispute_close o = o.dispute_closed.serialized
field refund o = o.refunds
field payment_sent o = o.payment_sent
field payment_finalized o = o.payment_finalized.serialized
field (other_type n) o = none

-- The slot of a type, with the signature, where an order keeps one message of the type.
abbrev pub slot : MessageType → Order → Option Slot
slot order_open o = some o.order_open
slot order_reject o = some o.order_reject
slot order_cancel o = some o.order_cancel
slot order_confirmation o = some o.order_confirmation
slot rating_signatures o = some o.rating_signatures
slot order_complete o = some o.order_complete
slot dispute_open o = some o.dispute_open
slot dispute_update o = some o.dispute_update
slot dispute_close o = some o.dispute_closed
slot payment_finalized o = some o.payment_finalized
slot _ o = none

-- The document that jsonpb writes for the types of which an order keeps one message.
pub data KeptAs : MessageType → Kind → Type 0 where
  as_open : KeptAs order_open open_kind
  as_reject : KeptAs order_reject reject_kind
  as_cancel : KeptAs order_cancel cancel_kind
  as_confirmation : KeptAs order_confirmation confirmation_kind
  as_rating_signatures : KeptAs rating_signatures rating_signatures_kind
  as_complete : KeptAs order_complete complete_kind
  as_dispute_open : KeptAs dispute_open dispute_open_kind
  as_dispute_update : KeptAs dispute_update dispute_update_kind
  as_dispute_close : KeptAs dispute_close dispute_close_kind
  as_finalized : KeptAs payment_finalized payment_finalized_kind

-- The getter of such a type.
abbrev pub getter : {t : MessageType} {k : Kind} → KeptAs t k → Codec → Order → Result (Body k)
getter as_open = order_open_message
getter as_reject = order_reject_message
getter as_cancel = order_cancel_message
getter as_confirmation = order_confirmation_message
getter as_rating_signatures = rating_signatures_message
getter as_complete = order_complete_message
getter as_dispute_open = dispute_open_message
getter as_dispute_update = dispute_update_message
getter as_dispute_close = dispute_closed_message
getter as_finalized = payment_finalized_message

getter_lem :
    {t : MessageType} {k : Kind} (kept : KeptAs t k) (c : Codec) (o : Order)
    → getter kept c o ≡ read_message c k (field t o)
unfolding order_open_message order_reject_message order_cancel_message order_confirmation_message
    rating_signatures_message order_complete_message dispute_open_message dispute_update_message
    dispute_closed_message payment_finalized_message
getter_lem as_open c o = refl
getter_lem as_reject c o = refl
getter_lem as_cancel c o = refl
getter_lem as_confirmation c o = refl
getter_lem as_rating_signatures c o = refl
getter_lem as_complete c o = refl
getter_lem as_dispute_open c o = refl
getter_lem as_dispute_update c o = refl
getter_lem as_dispute_close c o = refl
getter_lem as_finalized c o = refl

-- The rest of the order: what PutMessage has no business with.
pub record SameRest (o p : Order) : Type 0 where
  pub same_id : p.id ≡ o.id
  pub same_payment_address : p.payment_address ≡ o.payment_address
  pub same_transactions : p.transactions ≡ o.transactions
  pub same_my_role : p.my_role ≡ o.my_role
  pub same_is_open : p.is_open ≡ o.is_open
  pub same_parked_messages : p.parked_messages ≡ o.parked_messages
  pub same_errored_messages : p.errored_messages ≡ o.errored_messages
  pub same_acks : p.acks ≡ o.acks
  pub same_last_check : p.last_check_for_payments ≡ o.last_check_for_payments
  pub same_rescan : p.rescan_performed ≡ o.rescan_performed

-- How a call for type `t` ended: without error the field holds a message, else it is as it was.
abbrev pub Ended : MessageType → Order → Result (Unit {0}) → Order → Type 0
Ended t o (ok u) p = field t p ≢ none
Ended t o _ p = field t p ≡ field t o

put_by_type-field :
    (t u : MessageType) (c : Codec) (m : OrderMessage) (o : Order)
    → u ≢ t
    → field u (put_by_type t c m o).1 ≡ field u o
unfolding put_by_type put_single
put_by_type-field order_open order_open c m o h = absurd (h refl)
put_by_type-field _ _ c m o h = ground arith

put_by_type-slot :
    (t u : MessageType) (c : Codec) (m : OrderMessage) (o : Order)
    → u ≢ t
    → slot u (put_by_type t c m o).1 ≡ slot u o
unfolding put_by_type put_single
put_by_type-slot order_open order_open c m o h = absurd (h refl)
put_by_type-slot _ _ c m o h = ground arith

put_by_type-Ended :
    (t : MessageType) (c : Codec) (m : OrderMessage) (o : Order)
    → Ended t o (put_by_type t c m o).0 (put_by_type t c m o).1
unfolding put_by_type put_single
put_by_type-Ended order_open c m o = ground arith
put_by_type-Ended _ c m o = ground arith

pub put_by_type-SameRest :
    (t : MessageType) (c : Codec) (m : OrderMessage) (o : Order)
    → SameRest o (put_by_type t c m o).1
unfolding put_by_type put_single
put_by_type-SameRest order_open c m o = ground arith
put_by_type-SameRest _ c m o = ground arith

-- PutMessage touches the field and the signature of the message's own type alone. Without error that
-- field holds a message afterwards; with one it is as it was. No call changes the rest of the order.
pub put_message_frame :
    (c : Codec) (m : OrderMessage) (o : Order)
    → let (r, p) = put_message c m o in
      ((u : MessageType) → u ≢ m.message_type → (field u p ≡ field u o) × (slot u p ≡ slot u o))
      × Ended m.message_type o r p
      × SameRest o p
unfolding put_message
put_message_frame c m o = (
  λ u h. (put_by_type-field m.message_type u c m o h, put_by_type-slot m.message_type u c m o h),
  put_by_type-Ended m.message_type c m o,
  put_by_type-SameRest m.message_type c m o,
)

read_message-marshal :
    (c : Codec) (k : Kind) (msg : Body k) (b : Bytes)
    → IsLawful c
    → c.marshal_json k msg ≡ some b
    → read_message c k (some b) ≡ ok msg
unfolding read_message
read_message-marshal c k msg [] law h = absurd (law.json_nonempty k msg h)
read_message-marshal c k msg (x ∷ xs) law h = rw (law.json_round k msg (x ∷ xs) h)

-- The tail of PutMessage, for any way to write to the field that `get` reads.
put_single_round :
    (c : Codec) (k : Kind) (write : Bytes → Order → Order) (get : Order → Option Bytes)
    (m : OrderMessage) (msg : Body k) (o : Order)
    → IsLawful c
    → ((b : Bytes) (r : Order) → get (write b r) ≡ some b)
    → c.unmarshal_any k m.message ≡ some msg
    → (put_single c k write m o).0 ≡ ok tt
    → read_message c k (get (put_single c k write m o).1) ≡ ok msg
unfolding put_single
put_single_round c k write get m msg o law at_field hm h =
    elim (Option-cases (c.marshal_json k msg)) [
      | inl e ↦ cc (rw (hm, e) at h)
      | inr (b, e) ↦ rw (hm, e) (rw (at_field b o) (read_message-marshal c k msg b law e))
    ]

put_by_type_round :
    (c : Codec) (m : OrderMessage) (o : Order) {t : MessageType} {k : Kind} (msg : Body k)
    → KeptAs t k
    → IsLawful c
    → c.unmarshal_any k m.message ≡ some msg
    → (put_by_type t c m o).0 ≡ ok tt
    → read_message c k (field t (put_by_type t c m o).1) ≡ ok msg
unfolding put_by_type
put_by_type_round c m o msg as_open law hm h =
    put_single_round c _ _ (field order_open) m msg _ law (λ b r. refl) hm h
put_by_type_round c m o msg as_reject law hm h =
    put_single_round c _ _ (field order_reject) m msg _ law (λ b r. refl) hm h
put_by_type_round c m o msg as_cancel law hm h =
    put_single_round c _ _ (field order_cancel) m msg _ law (λ b r. refl) hm h
put_by_type_round c m o msg as_confirmation law hm h =
    put_single_round c _ _ (field order_confirmation) m msg _ law (λ b r. refl) hm h
put_by_type_round c m o msg as_rating_signatures law hm h =
    put_single_round c _ _ (field rating_signatures) m msg _ law (λ b r. refl) hm h
put_by_type_round c m o msg as_complete law hm h =
    put_single_round c _ _ (field order_complete) m msg _ law (λ b r. refl) hm h
put_by_type_round c m o msg as_dispute_open law hm h =
    put_single_round c _ _ (field dispute_open) m msg _ law (λ b r. refl) hm h
put_by_type_round c m o msg as_dispute_update law hm h =
    put_single_round c _ _ (field dispute_update) m msg _ law (λ b r. refl) hm h
put_by_type_round c m o msg as_dispute_close law hm h =
    put_single_round c _ _ (field dispute_close) m msg _ law (λ b r. refl) hm h
put_by_type_round c m o msg as_finalized law hm h =
    put_single_round c _ _ (field payment_finalized) m msg _ law (λ b r. refl) hm h

-- A message of a type of which an order keeps one, put without error, is what the getter of that
-- type returns: jsonpb reads back what it wrote.
pub put_message_round :
    (c : Codec) (m : OrderMessage) (o : Order) {k : Kind} (msg : Body k)
    (kept : KeptAs m.message_type k)
    → IsLawful c
    → c.unmarshal_any k m.message ≡ some msg
    → (put_message c m o).0 ≡ ok tt
    → getter kept c (put_message c m o).1 ≡ ok msg
unfolding put_message
put_message_round c m o msg kept law hm h =
    getter_lem kept c (put_message c m o).1 ∙ put_by_type_round c m o msg kept law hm h
