-- ===== src/Order/ParkedLaws.antt =====
-- models/orders.go: ParkMessage, GetParkedMessages and DeleteParkedMessage together.
use openbazaar.Prelude.{
  Bool, false, Option, none, some, List, [], ◌∷◌, ◌++◌, ◌≡◌, refl, ◌∙◌, ◌==◌, exists_in, arith,
  Option-cases, inl, inr,
}
use openbazaar.Exec.{ok}
use openbazaar.Proto.Common.{Bytes}
use openbazaar.Proto.Net.{MessageType, OrderMessage, type_number}
use openbazaar.Proto.Codec.{Codec, IsLawful}
use openbazaar.Order.Defs.{Order}
use openbazaar.Order.Read.{get_order_list, get_parked_messages}
use openbazaar.Order.Parked.{
  unmarshal_list, append_to, park_message, delete_first, delete_parked_message,
}

-- The writers and the getter read the field alike.
unmarshal_list-eq-get :
    (c : Codec) (f : Option Bytes) → IsLawful c → unmarshal_list c f ≡ get_order_list c f
unfolding unmarshal_list get_order_list
unmarshal_list-eq-get c none law = refl
unmarshal_list-eq-get c (some []) law = rw law.orders_nil
unmarshal_list-eq-get c (some (b ∷ bs)) law = refl

pub get-marshal :
    (c : Codec) (l : List OrderMessage) (b : Bytes)
    → IsLawful c
    → c.marshal_orders l ≡ some b
    → get_order_list c (some b) ≡ ok l
unfolding get_order_list
get-marshal c l [] law h = rw (law.orders_empty l h)
get-marshal c l (x ∷ xs) law h = rw (law.orders_round l (x ∷ xs) h)

module _ (c : Codec) (o : Order) (l : List OrderMessage) (law : IsLawful c)
    (held : get_parked_messages c o ≡ ok l) where
  reads : unmarshal_list c o.parked_messages ≡ ok l
  unfolding get_parked_messages
  reads = unmarshal_list-eq-get c o.parked_messages law ∙ held

  park_message_lem :
      (m : OrderMessage)
      → (park_message c m o).0 ≡ ok tt
      → get_parked_messages c (park_message c m o).1 ≡ ok (l ++ m ∷ [])
  unfolding park_message append_to get_parked_messages
  park_message_lem m done = elim (Option-cases (c.marshal_orders (l ++ m ∷ []))) [
    | inl e ↦ cc (rw (reads, e) at done)
    | inr (b, e) ↦ rw (reads, e) (get-marshal c _ b law e)
  ]

  delete_parked_lem :
      (t : MessageType)
      → (delete_parked_message c t o).0 ≡ ok tt
      → get_parked_messages c (delete_parked_message c t o).1 ≡ ok (delete_first t l)
  unfolding delete_parked_message get_parked_messages
  delete_parked_lem t done = elim (Option-cases (c.marshal_orders (delete_first t l))) [
    | inl e ↦ cc (rw (reads, e) at done)
    | inr (b, e) ↦ rw (reads, e) (get-marshal c _ b law e)
  ]

abbrev pub has_type : MessageType → List OrderMessage → Bool
has_type t l = exists_in (λ m. type_number (OrderMessage.message_type m) == type_number t) l

delete_first-append :
    (l : List OrderMessage) (m : OrderMessage)
    → has_type m.message_type l ≡ false
    → delete_first m.message_type (l ++ m ∷ []) ≡ l
unfolding delete_first
delete_first-append [] m h = ground arith
delete_first-append (x ∷ xs) m h = ground (arith, delete_first-append xs m)

-- Where the parked messages can be read and the message is parked without error, it stands last in the
-- list of them. If moreover no other message of its type was parked, and its type is then deleted without
-- error, the list is as before.
pub park-delete :
    (c : Codec) (o : Order) (l : List OrderMessage) (m : OrderMessage)
    → IsLawful c
    → get_parked_messages c o ≡ ok l
    → (park_message c m o).0 ≡ ok tt
    → let p = (park_message c m o).1 in
      let (s, q) = delete_parked_message c m.message_type p in
      (get_parked_messages c p ≡ ok (l ++ m ∷ []))
      × (has_type m.message_type l ≡ false → s ≡ ok tt → get_parked_messages c q ≡ ok l)
park-delete c o l m law held done =
    let p : Order = (park_message c m o).1 in
    let parked = park_message_lem c o l law held m done in
    (
      parked,
      λ new done'.
          rw (← delete_first-append l m new)
            (delete_parked_lem c p (l ++ m ∷ []) law parked m.message_type done'),
    )
