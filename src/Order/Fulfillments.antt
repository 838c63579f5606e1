-- ===== src/Order/Fulfillments.antt =====
-- models/orders.go: PutMessage for ORDER_FULFILLMENT, and the fulfillments that an order holds.
use openbazaar.Prelude.{
  Bool, true, false, ℕ, ◌==◌, ◌∙◌, Option, some, List, [], ◌∷◌, ◌++◌, ◌≡◌, refl, exists_in,
  exists_in-cons, All, All-snoc, arith, Option-cases, Bool-cases, inl, inr,
}
use openbazaar.Exec.{ok}
use openbazaar.Proto.Common.{Bytes}
use openbazaar.Proto.Net.{OrderMessage}
use openbazaar.Proto.Orders.{FulfilledItem, OrderFulfillment, Signed}
use openbazaar.Proto.Codec.{Codec, IsLawful, fulfillment_kind, fulfillment_list_kind}
use openbazaar.Order.Put.{read_or, same_item, put_fulfillment}

abbrev pub Fulfillments : Type 0
Fulfillments = List (Signed OrderFulfillment)

-- The fulfillments that a field holds.
abbrev pub HoldsFulfillments : Codec → Option Bytes → Fulfillments → Type 0
HoldsFulfillments c f l = read_or [] (c.unmarshal_json fulfillment_list_kind) f ≡ ok l

-- The fulfillment names the item of the index.
abbrev pub names : ℕ → List FulfilledItem → Bool
names i items = exists_in (λ item. i == FulfilledItem.item_index item) items

-- No item is named by both.
abbrev pub AreApart : Signed OrderFulfillment → Signed OrderFulfillment → Type 0
AreApart f g =
    (i : ℕ) → names i f.message.fulfillments ≡ true → names i g.message.fulfillments ≡ false

-- No item stands in two fulfillments.
abbrev pub IsOnce : Fulfillments → Type 0
IsOnce [] = Unit
IsOnce (f ∷ fs) = All (λ g. AreApart f g) fs × IsOnce fs

items_apart :
    (i : ℕ) (l k : List FulfilledItem)
    → exists_in
        (λ item.
          exists_in (λ other. FulfilledItem.item_index item == FulfilledItem.item_index other) k)
        l
      ≡ false
    → names i l ≡ true
    → names i k ≡ false
items_apart i [] k h n = cc
items_apart i (x ∷ xs) k h n =
    let (hx, hs) =
      exists_in-cons
        (λ y. exists_in (λ other. FulfilledItem.item_index y == FulfilledItem.item_index other) k) x
        xs h in
    elim (Bool-cases (i == x.item_index)) [
      | inl e ↦ let p : i ≡ x.item_index = ground (arith, e) in rw p hx
      | inr e ↦ items_apart i xs k hs (rw e at n)
    ]

same_item-AreApart :
    (f g : Signed OrderFulfillment) → same_item f.message g.message ≡ false → AreApart f g
unfolding same_item
same_item-AreApart f g h i n = items_apart i f.message.fulfillments g.message.fulfillments h n

IsOnce-append :
    (l : Fulfillments) (g : Signed OrderFulfillment)
    → IsOnce l
    → exists_in (λ f. same_item (Signed.message f) g.message) l ≡ false
    → IsOnce (l ++ g ∷ [])
IsOnce-append [] g once h = (tt, tt)
IsOnce-append (f ∷ fs) g (apart, once) h =
    let (hf, hs) = exists_in-cons (λ y. same_item (Signed.message y) g.message) f fs h in
    (All-snoc (λ k. AreApart f k) fs apart (same_item-AreApart f g hf), IsOnce-append fs g once hs)

-- The list after a put, with the one that is new at its end.
abbrev grown : OrderMessage → OrderFulfillment → Fulfillments → Fulfillments
grown m msg l = l ++ record { message = msg; signature = m.signature } ∷ []

put_fulfillment_known :
    (c : Codec) (m : OrderMessage) (f : Option Bytes) (l : Fulfillments) (b : Bytes)
    → HoldsFulfillments c f l
    → put_fulfillment c m f ≡ ok b
    → (msg : OrderFulfillment) × (exists_in (λ g. same_item (Signed.message g) msg) l ≡ false)
      × (c.marshal_json fulfillment_list_kind (grown m msg l) ≡ some b)
unfolding put_fulfillment
put_fulfillment_known c m f l b held done =
    elim (Option-cases (c.unmarshal_any fulfillment_kind m.message)) [
      | inl e ↦ cc (rw (e) at done)
      | inr (msg, e) ↦ elim (Bool-cases (exists_in (λ g. same_item (Signed.message g) msg) l)) [
        | inl known ↦ cc (rw (e, held, known) at done)
        | inr new ↦ elim (Option-cases (c.marshal_json fulfillment_list_kind (grown m msg l))) [
          | inl e' ↦ cc (rw (e, held, new, e') at done)
          | inr (b', e') ↦ (msg, new, e' ∙ cc (rw (e, held, new, e') at done))
        ]
      ]
    ]

-- If no item's index is named by two of the fulfillments that an order holds, then none is by two of
-- those that it holds after another one was put without error.
pub put_fulfillment-IsOnce :
    (c : Codec) (m : OrderMessage) (f : Option Bytes) (l : Fulfillments) (b : Bytes)
    → IsLawful c
    → HoldsFulfillments c f l
    → IsOnce l
    → put_fulfillment c m f ≡ ok b
    → (after : Fulfillments) × HoldsFulfillments c (some b) after × IsOnce after
unfolding put_fulfillment
put_fulfillment-IsOnce c m f l b law held once done =
    let (msg, new, e) = put_fulfillment_known c m f l b held done in
    (grown m msg l, rw (law.json_round _ _ b e) refl, IsOnce-append l _ once new)
