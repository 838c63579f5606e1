-- ===== src/Processor/Excluded.antt =====
-- orders/processor.go: a message for an order that is not known.
use openbazaar.Prelude.{false, none, some, [], ◌∷◌, ◌≡◌, ap, refl}
use openbazaar.Exec.{ok}
use openbazaar.Proto.Common.{Bytes, Text}
use openbazaar.Proto.Net.{MessageType, OrderMessage, order_reject}
use openbazaar.Proto.Codec.{Codec, IsLawful}
use openbazaar.Order.Defs.{Order, zero_order}
use openbazaar.Order.Fields.{field}
use openbazaar.Order.Read.{get_parked_messages}
use openbazaar.Order.Parked.{park_message, append_to, unmarshal_list}
use openbazaar.Order.ParkedLaws.{get-marshal}
use openbazaar.Processor.Env.{Env, World}
use openbazaar.Processor.Process.{process_message_top, is_order_open, parked_outcome}

-- The order that holds nothing but the parked message.
abbrev first_parked : OrderMessage → Bytes → Order
first_parked m b = record zero_order { id = m.order_id; parked_messages = some b }

parks_first :
    (c : Codec) (m : OrderMessage) (b : Bytes)
    → c.marshal_orders (m ∷ []) ≡ some b
    → park_message c m (record zero_order { id = m.order_id }) ≡ (ok tt, first_parked m b)
unfolding park_message append_to unmarshal_list
parks_first c m b h = rw h refl

nothing_saved : (m : OrderMessage) (b : Bytes) (t : MessageType) → field t (first_parked m b) ≡ none
nothing_saved m b order_reject = refl
nothing_saved m b _ = refl

-- A message other than ORDER_OPEN for an order that is not in the database opens an order that has
-- the message's order ID, that message alone parked, and no message of any type; it raises no event
-- and writes nothing else. This is so where the serializer writes the list.
pub process_message_top-unknown :
    (env : Env) (peer : Text) (m : OrderMessage) (w : World) (b : Bytes)
    → IsLawful env.codec
    → is_order_open m.message_type ≡ false
    → env.codec.marshal_orders (m ∷ []) ≡ some b
    → let out = process_message_top env peer m none w in
      (o : Order) × (out ≡ record { result = ok none; saved = some o; world = w })
      × (get_parked_messages env.codec o ≡ ok (m ∷ []))
      × (o.id ≡ m.order_id)
      × ((t : MessageType) → field t o ≡ none)
unfolding process_message_top get_parked_messages
process_message_top-unknown env peer m w b law h hb = (
  first_parked m b,
  rw h (ap (λ x. parked_outcome x w) (parks_first env.codec m b hb)),
  get-marshal env.codec (m ∷ []) b law hb,
  refl,
  nothing_saved m b,
)
