-- ===== src/Examples/Orders.antt =====
-- The theorems about the order at concrete inputs.
use openbazaar.Prelude.{ℕ, ◌<◌, true, false, none, some, [], ◌∷◌, ◌≡◌, ◌≢◌, ◌↔◌, refl, inl, inr}
use openbazaar.Prelude.Int.{pos, ◌+ℤ◌, leb_ℤ}
use openbazaar.Exec.{ok}
use openbazaar.Proto.Net.{MessageType, order_cancel}
use openbazaar.Order.Defs.{Order, zero_order, role_buyer, role_vendor}
use openbazaar.Order.Read.{
  read_message, order_open_message, order_cancel_message, get_transactions, get_parked_messages,
  get_order_list, order_fulfillment_messages,
}
use openbazaar.Order.Put.{put_message, put_by_type, put_single, put_transaction, put_fulfillment}
use openbazaar.Order.Parked.{
  park_message, append_to, unmarshal_list, delete_parked_message, delete_first,
}
use openbazaar.Order.Status.{
  can_reject, can_confirm, can_cancel, funding_total, is_funded, is_fulfilled,
}
use openbazaar.Order.Fields.{
  field, slot, Ended, SameRest, put_message_frame, put_message_round, as_cancel,
}
use openbazaar.Order.Settled.{put_message_settles}
use openbazaar.Order.Fulfilled.{is_fulfilled_iff, fulfilled_in}
use openbazaar.Order.Payments.{paid_by_all, paid_to}
use openbazaar.Order.Transactions.{put_transaction-IsUnique, put_transaction_funds, IsRecorded}
use openbazaar.Order.ParkedLaws.{park-delete, has_type}
use openbazaar.Order.Fulfillments.{put_fulfillment-IsOnce, HoldsFulfillments, IsOnce, Fulfillments}
use openbazaar.Examples.Toy.{
  toy, toy-IsLawful, any_body, write_json, read_json, write_orders, read_orders, write_transactions,
  cancel, opened, payment, bought, shipped, cancel_message, shipped_message,
}

-- A seller's order that is open, one that is paid and confirmed, and a buyer's order that is paid and
-- fulfilled.
abbrev open_order : Order
open_order = record zero_order {
  id = "order";
  my_role = role_vendor;
  order_open = record { serialized = some (9 ∷ []); signature = "" };
}

abbrev paid_order : Order
paid_order = record open_order {
  transactions = some (5 ∷ []);
  order_confirmation = record { serialized = some (6 ∷ []); signature = "" };
}

abbrev fulfilled_order : Order
fulfilled_order = record paid_order { my_role = role_buyer; order_fulfillments = some (4 ∷ []) }

put_message_frame_example :
    let (r, p) = put_message toy cancel_message open_order in
    ((u : MessageType)
      → u ≢ order_cancel
      → (field u p ≡ field u open_order) × (slot u p ≡ slot u open_order))
    × Ended order_cancel open_order r p
    × SameRest open_order p
put_message_frame_example = put_message_frame toy cancel_message open_order

put_message_round_example :
    order_cancel_message toy (put_message toy cancel_message open_order).1 ≡ ok cancel
unfolding put_message put_by_type put_single any_body write_json
put_message_round_example =
    put_message_round toy cancel_message open_order cancel as_cancel toy-IsLawful refl refl

put_message_settles_example :
    let p = (put_message toy cancel_message open_order).1 in
    (can_reject toy p ≡ false) × (can_confirm toy p ≡ false) × (can_cancel toy p ≡ false)
unfolding put_message put_by_type put_single any_body write_json
put_message_settles_example = put_message_settles toy cancel_message open_order refl refl

is_fulfilled_iff_example :
    (is_fulfilled toy fulfilled_order ≡ ok true)
    ↔ ((i : ℕ) → i < 1 → fulfilled_in i (shipped ∷ []) ≡ true)
unfolding order_fulfillment_messages order_open_message read_message read_json
is_fulfilled_iff_example = is_fulfilled_iff toy fulfilled_order opened (shipped ∷ []) refl refl

put_transaction-IsUnique_example :
    IsRecorded toy bought paid_order (bought ∷ []) (put_transaction toy bought paid_order)
unfolding get_transactions
put_transaction-IsUnique_example =
    put_transaction-IsUnique toy bought paid_order (bought ∷ []) toy-IsLawful (inr refl) (refl, tt)

put_transaction_funds_example :
    let after = paid_by_all "addr" [] +ℤ paid_to "addr" bought.to in
    (funding_total toy (put_transaction toy bought open_order).1 ≡ ok after)
    × (is_funded toy (put_transaction toy bought open_order).1 ≡ ok (leb_ℤ (pos 5) after))
unfolding put_transaction write_transactions order_open_message read_message read_json
put_transaction_funds_example =
    put_transaction_funds toy bought open_order [] opened payment toy-IsLawful (inl (refl, refl))
      refl refl refl refl

park-delete_example :
    let p = (park_message toy cancel_message open_order).1 in
    (get_parked_messages toy p ≡ ok (cancel_message ∷ []))
    × (has_type order_cancel [] ≡ false
        → (delete_parked_message toy order_cancel p).0 ≡ ok tt
        → get_parked_messages toy (delete_parked_message toy order_cancel p).1 ≡ ok [])
unfolding park_message append_to unmarshal_list write_orders read_orders delete_parked_message
    delete_first get_parked_messages get_order_list
park-delete_example = park-delete toy open_order [] cancel_message toy-IsLawful refl refl

put_fulfillment-IsOnce_example :
    (after : Fulfillments) × HoldsFulfillments toy (some (4 ∷ [])) after × IsOnce after
unfolding put_fulfillment any_body write_json
put_fulfillment-IsOnce_example =
    put_fulfillment-IsOnce toy shipped_message none [] (4 ∷ []) toy-IsLawful refl tt refl
