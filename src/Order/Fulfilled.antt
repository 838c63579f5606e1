-- ===== src/Order/Fulfilled.antt =====
-- models/orders.go: IsFulfilled, which deletes the fulfilled indices from a map of all of them and
-- tests that it is empty.
use openbazaar.Prelude.{
  ℕ, ◌+◌, ◌<◌, Bool, true, false, List, [], ◌∷◌, ◌≡◌, ◌↔◌, refl, ap, ◌==◌, ◌&&◌, not, ltb, leb,
  length, exists_in, is_nil, arith,
}
use openbazaar.Exec.{ok}
use openbazaar.Proto.Orders.{OrderOpen, OrderItem, OrderFulfillment, FulfilledItem}
use openbazaar.Proto.Codec.{Codec}
use openbazaar.Order.Defs.{Order}
use openbazaar.Order.Read.{order_open_message, order_fulfillment_messages}
use openbazaar.Order.Status.{
  or_empty, indices, delete_key, delete_items, delete_fulfilled, is_fulfilled,
}

-- Some fulfillment names the item.
abbrev names_item : ℕ → List FulfilledItem → Bool
names_item i items = exists_in (λ item. FulfilledItem.item_index item == i) items

abbrev pub fulfilled_in : ℕ → List OrderFulfillment → Bool
fulfilled_in i fs = exists_in (λ f. names_item i (OrderFulfillment.fulfillments f)) fs

abbrev has_key : ℕ → List ℕ → Bool
has_key i m = exists_in (λ j. j == i) m

has_key-delete_key :
    (i k : ℕ) (m : List ℕ) → has_key i (delete_key k m) ≡ not (k == i) && has_key i m
unfolding delete_key
has_key-delete_key i k [] = ground arith
has_key-delete_key i k (j ∷ js) = ground (arith, has_key-delete_key i k js)

has_key-delete_items :
    (i : ℕ) (fs : List FulfilledItem) (m : List ℕ)
    → has_key i (delete_items fs m) ≡ not (names_item i fs) && has_key i m
unfolding delete_items
has_key-delete_items i [] m = refl
has_key-delete_items i (f ∷ fs) m = ground (
  arith,
  has_key-delete_items i fs (delete_key f.item_index m),
  has_key-delete_key i f.item_index m,
)

has_key-delete_fulfilled :
    (i : ℕ) (fs : List OrderFulfillment) (m : List ℕ)
    → has_key i (delete_fulfilled fs m) ≡ not (fulfilled_in i fs) && has_key i m
unfolding delete_fulfilled
has_key-delete_fulfilled i [] m = refl
has_key-delete_fulfilled i (f ∷ fs) m = ground (
  arith,
  has_key-delete_fulfilled i fs (delete_items f.fulfillments m),
  has_key-delete_items i f.fulfillments m,
)

has_key-indices :
    (i j : ℕ) (xs : List OrderItem) → has_key i (indices j xs) ≡ leb j i && ltb i (j + length xs)
unfolding indices
has_key-indices i j [] = ground arith
has_key-indices i j (x ∷ xs) = ground (arith, has_key-indices i (j + 1) xs)

is_nil_of_keys : (m : List ℕ) → ((i : ℕ) → has_key i m ≡ false) → is_nil m ≡ true
is_nil_of_keys [] h = refl
is_nil_of_keys (j ∷ js) h = ground (arith, h j)

keys_of_is_nil : (m : List ℕ) (i : ℕ) → is_nil m ≡ true → has_key i m ≡ false
keys_of_is_nil [] i h = refl
keys_of_is_nil (j ∷ js) i h = ground arith

all_deleted :
    (fs : List OrderFulfillment) (items : List OrderItem)
    → (is_nil (delete_fulfilled fs (indices 0 items)) ≡ true)
      ↔ ((i : ℕ) → i < length items → fulfilled_in i fs ≡ true)
all_deleted fs items = (
  λ h i below. ground (
    arith,
    keys_of_is_nil (delete_fulfilled fs (indices 0 items)) i h,
    has_key-delete_fulfilled i fs (indices 0 items),
    has_key-indices i 0 items,
  ),
  λ h. is_nil_of_keys _ λ i.
      ground
        (arith, has_key-delete_fulfilled i fs (indices 0 items), has_key-indices i 0 items, h i),
)

-- For an order whose ORDER_OPEN and fulfillments can be read (no fulfillment yet counts as the empty
-- list), IsFulfilled returns true exactly when every item's index is named by a saved fulfillment.
pub is_fulfilled_iff :
    (c : Codec) (o : Order) (m : OrderOpen) (fs : List OrderFulfillment)
    → order_open_message c o ≡ ok m
    → or_empty (order_fulfillment_messages c o) ≡ ok fs
    → (is_fulfilled c o ≡ ok true) ↔ ((i : ℕ) → i < length m.items → fulfilled_in i fs ≡ true)
unfolding is_fulfilled
is_fulfilled_iff c o m fs hm hf =
    rw (hm, hf) (λ h. (all_deleted fs m.items).0 (cc h), λ h. ap ok ((all_deleted fs m.items).1 h))
