-- ===== src/Processor/Acked.antt =====
-- orders/processor.go and core/network.go: what an ACK changes.
use openbazaar.Prelude.{
  ℕ, zero, suc, Bool, true, false, Option, none, some, List, [], ◌∷◌, ◌≡◌, not, refl, ◌∙◌, subst,
  ◌⊎◌, inl, inr, str_eq, eq_refl, Option-cases, Bool-cases, if◌then◌else◌,
}
use openbazaar.Exec.{
  Error, Result, ok, err, panic, bind_result, fail_if, not_found, external, unexpected_message,
}
use openbazaar.Exec.Invert.{bind_result-ok, search-ok, fail_if-ok, ok_injective}
use openbazaar.Proto.Common.{Text}
use openbazaar.Proto.Net.{
  MessageType, NetType, NetMessage, OrderMessage, order_open, order_reject, order_cancel,
  order_confirmation, rating_signatures, order_fulfillment, order_complete, dispute_open,
  dispute_update, dispute_close, refund, payment_sent, payment_finalized, other_type,
}
use openbazaar.Order.Defs.{Order, Acks}
use openbazaar.Messenger.Defs.{OutgoingMessage, delete_row}
use openbazaar.Messenger.Rows.{find_row, find-delete}
use openbazaar.Processor.Acks.{
  AckKey, order_open_key, order_reject_key, order_cancel_key, order_confirmation_key,
  rating_signatures_key, order_fulfillment_key, order_complete_key, dispute_open_moderator_key,
  dispute_open_other_party_key, dispute_update_key, dispute_closed_key, refund_key,
  payment_sent_key, payment_finalized_key, ack_key, set_acked, Tables, AckEnv, update_acked,
  process_order_ack, is_order_row, ack_rows, is_not_found, committed, is_ack, handle_ack_message,
}

-- The flags in a row, and the place of each.
abbrev pub flags_of : Acks → List Bool
flags_of a =
    a.order_open_acked ∷ a.order_reject_acked ∷ a.order_cancel_acked ∷ a.order_confirmation_acked
    ∷ a.rating_signatures_acked ∷ a.order_fulfillment_acked ∷ a.order_complete_acked
    ∷ a.dispute_open_moderator_acked ∷ a.dispute_open_other_party_acked ∷ a.dispute_update_acked
    ∷ a.dispute_closed_acked ∷ a.refund_acked ∷ a.payment_sent_acked ∷ a.payment_finalized_acked
    ∷ []

abbrev pub place_of : AckKey → ℕ
place_of order_open_key = 0
place_of order_reject_key = 1
place_of order_cancel_key = 2
place_of order_confirmation_key = 3
place_of rating_signatures_key = 4
place_of order_fulfillment_key = 5
place_of order_complete_key = 6
place_of dispute_open_moderator_key = 7
place_of dispute_open_other_party_key = 8
place_of dispute_update_key = 9
place_of dispute_closed_key = 10
place_of refund_key = 11
place_of payment_sent_key = 12
place_of payment_finalized_key = 13

-- The place of the flag of a message type: the ACK of a dispute to the moderator has its own.
abbrev pub place_for : MessageType → NetType → Option ℕ
place_for order_open n = some 0
place_for order_reject n = some 1
place_for order_cancel n = some 2
place_for order_confirmation n = some 3
place_for rating_signatures n = some 4
place_for order_fulfillment n = some 5
place_for order_complete n = some 6
place_for dispute_open NetType.dispute = some 7
place_for dispute_open n = some 8
place_for dispute_update n = some 9
place_for dispute_close n = some 10
place_for refund n = some 11
place_for payment_sent n = some 12
place_for payment_finalized n = some 13
place_for (other_type k) n = none

-- The switch names the column of the type.
ack_key_lem :
    (t : MessageType) (n : NetType) {i : ℕ}
    → place_for t n ≡ some i
    → (k : AckKey) × (ack_key t n ≡ some k) × (place_of k ≡ i)
unfolding ack_key
ack_key_lem order_open n h = (order_open_key, refl, cc)
ack_key_lem order_reject n h = (order_reject_key, refl, cc)
ack_key_lem order_cancel n h = (order_cancel_key, refl, cc)
ack_key_lem order_confirmation n h = (order_confirmation_key, refl, cc)
ack_key_lem rating_signatures n h = (rating_signatures_key, refl, cc)
ack_key_lem order_fulfillment n h = (order_fulfillment_key, refl, cc)
ack_key_lem order_complete n h = (order_complete_key, refl, cc)
ack_key_lem dispute_open NetType.dispute h = (dispute_open_moderator_key, refl, cc)
ack_key_lem dispute_open _ h = (dispute_open_other_party_key, refl, cc)
ack_key_lem dispute_update n h = (dispute_update_key, refl, cc)
ack_key_lem dispute_close n h = (dispute_closed_key, refl, cc)
ack_key_lem refund n h = (refund_key, refl, cc)
ack_key_lem payment_sent n h = (payment_sent_key, refl, cc)
ack_key_lem payment_finalized n h = (payment_finalized_key, refl, cc)
ack_key_lem (other_type k) n h = cc

abbrev pub raise_at : ℕ → List Bool → List Bool
raise_at n [] = []
raise_at zero (b ∷ bs) = true ∷ bs
raise_at (suc n) (b ∷ bs) = b ∷ raise_at n bs

flags_of-set_acked :
    (k : AckKey) (a : Acks) → flags_of (set_acked k a) ≡ raise_at (place_of k) (flags_of a)
unfolding set_acked
flags_of-set_acked order_open_key a = refl
flags_of-set_acked order_reject_key a = refl
flags_of-set_acked order_cancel_key a = refl
flags_of-set_acked order_confirmation_key a = refl
flags_of-set_acked rating_signatures_key a = refl
flags_of-set_acked order_fulfillment_key a = refl
flags_of-set_acked order_complete_key a = refl
flags_of-set_acked dispute_open_moderator_key a = refl
flags_of-set_acked dispute_open_other_party_key a = refl
flags_of-set_acked dispute_update_key a = refl
flags_of-set_acked dispute_closed_key a = refl
flags_of-set_acked refund_key a = refl
flags_of-set_acked payment_sent_key a = refl
flags_of-set_acked payment_finalized_key a = refl

-- The orders as before, but for the flag at one place of those with the ID.
pub IsRaised : ℕ → Text → List Order → List Order → Type 0
IsRaised n id [] [] = Unit
IsRaised n id [] (p ∷ ps) = ⊥
IsRaised n id (o ∷ os) [] = ⊥
IsRaised n id (o ∷ os) (p ∷ ps) =
    (p ≡ record o { acks = p.acks })
    × (flags_of p.acks ≡ (if str_eq o.id id then raise_at n (flags_of o.acks) else flags_of o.acks))
    × IsRaised n id os ps

update_acked-IsRaised :
    (k : AckKey) (id : Text) (os : List Order) → IsRaised (place_of k) id os (update_acked k id os)
unfolding update_acked IsRaised
update_acked-IsRaised k id [] = tt
update_acked-IsRaised k id (o ∷ os) = elim (Bool-cases (str_eq o.id id)) [
  | inl e ↦ rw e (refl, flags_of-set_acked k o.acks, update_acked-IsRaised k id os)
  | inr e ↦ rw e (refl, refl, update_acked-IsRaised k id os)
]

-- An ACK of an order message raises one flag: where the saved message can be read and its type is known
-- and the database accepts the update, ProcessACK returns, and the orders are as before, except that in
-- those with the message's order ID the flag of the message's type is true.
pub process_order_ack-IsRaised :
    (env : AckEnv) (om : OutgoingMessage) (orders : List Order) (m : NetMessage) (o : OrderMessage)
    (i : ℕ)
    → env.unmarshal_message om.serialized_message ≡ some m
    → env.unmarshal_order_message m.payload ≡ some o
    → place_for o.message_type m.net_type ≡ some i
    → env.can_update ≡ true
    → (os : List Order) × (process_order_ack env om orders ≡ ok os)
      × IsRaised i o.order_id orders os
unfolding process_order_ack
process_order_ack-IsRaised env om orders m o i hm ho hi up =
    let (k, hk, e) = ack_key_lem o.message_type m.net_type hi in
    (
      update_acked k o.order_id orders,
      rw (hm, ho, hk, up) refl,
      rw (← e) (update_acked-IsRaised k o.order_id orders),
    )

-- Neither a panic nor the error of a row that does not exist.
abbrev is_plain : {A : Type 0} → Result A → Bool
is_plain (ok a) = true
is_plain (err e) = not (is_not_found e)
is_plain panic = false

process_order_ack-plain :
    (env : AckEnv) (om : OutgoingMessage) (orders : List Order)
    → is_plain (process_order_ack env om orders) ≡ true
unfolding process_order_ack
process_order_ack-plain env om orders =
    elim (Option-cases (env.unmarshal_message om.serialized_message)) [
      | inl e ↦ rw e refl
      | inr (m, e) ↦ elim (Option-cases (env.unmarshal_order_message m.payload)) [
        | inl f ↦ rw (e, f) refl
        | inr (o, f) ↦ elim (Option-cases (ack_key o.message_type m.net_type)) [
          | inl g ↦ rw (e, f, g) refl
          | inr (k, g) ↦ elim (Bool-cases env.can_update) [
            | inl u ↦ rw (e, f, g, u) refl
            | inr u ↦ rw (e, f, g, u) refl
          ]
        ]
      ]
    ]

-- The orders after the first half of the transaction, and the second half.
abbrev acked_orders : AckEnv → OutgoingMessage → List Order → Result (List Order)
acked_orders env om orders =
    if is_order_row env om then process_order_ack env om orders else ok orders

acked_orders-plain :
    (env : AckEnv) (om : OutgoingMessage) (orders : List Order)
    → is_plain (acked_orders env om orders) ≡ true
acked_orders-plain env om orders = elim (Bool-cases (is_order_row env om)) [
  | inl e ↦ rw e (process_order_ack-plain env om orders)
  | inr e ↦ rw e refl
]

abbrev delete_acked : AckEnv → Text → Tables → List Order → Result Tables
delete_acked env id t orders =
    bind_result (fail_if (if env.can_delete then false else true) external)
      λ _. ok (record { orders = orders; outgoing = delete_row id t.outgoing })

ack_rows-plain :
    (env : AckEnv) (id : Text) (t : Tables) (r : Result (List Order))
    → is_plain r ≡ true
    → is_plain (bind_result r (delete_acked env id t)) ≡ true
ack_rows-plain env id t (ok orders) h = elim (Bool-cases env.can_delete) [
  | inl e ↦ rw e refl
  | inr e ↦ rw e refl
]
ack_rows-plain env id t (err e) h = h
ack_rows-plain env id t panic h = h

ack_rows-gone :
    (env : AckEnv) (id : Text) (t u : Tables)
    → ack_rows env id t ≡ ok u
    → find_row id u.outgoing ≡ none
unfolding ack_rows
ack_rows-gone env id t u done =
    let (_, k0) = fail_if-ok (if env.can_read then false else true) _ _ done in
    let (om, _, k) = search-ok not_found (find_row id t.outgoing) _ k0 in
    let (orders, _, k1) = bind_result-ok (acked_orders env om t.orders) _ k in
    let (_, k2) = fail_if-ok (if env.can_delete then false else true) _ _ k1 in
    subst (λ x. find_row id (Tables.outgoing x) ≡ none) (ok_injective k2)
      (find-delete id id t.outgoing ∙ rw (eq_refl id) refl)

-- What the transaction comes to for the acknowledged ID.
abbrev IdOutcome : Text → Tables → Result (Unit {0}) × Tables → Type 0
IdOutcome id t (r, u) =
    ((r ≡ ok tt) × (find_row id u.outgoing ≡ none)) ⊎ ((e : Error) × (r ≡ err e) × (u ≡ t))

-- What handleAckMessage comes to.
abbrev pub AckOutcome : AckEnv → NetMessage → Tables → Result (Unit {0}) × Tables → Type 0
AckOutcome env m t (r, u) =
    ((r ≡ ok tt)
      × ((id : Text) × (env.unmarshal_ack m.payload ≡ some id) × (find_row id u.outgoing ≡ none)))
    ⊎ ((e : Error) × (r ≡ err e) × (u ≡ t))

committed-IdOutcome :
    (env : AckEnv) (id : Text) (t : Tables) (r : Result Tables)
    → is_plain r ≡ true
    → ((u : Tables) → r ≡ ok u → find_row id u.outgoing ≡ none)
    → IdOutcome id t (committed env t r)
committed-IdOutcome env id t (ok u) h gone = elim (Bool-cases env.can_commit) [
  | inl c ↦ rw c (inl (refl, gone u refl))
  | inr c ↦ rw c (inr (external, refl, refl))
]
committed-IdOutcome env id t (err e) h gone = elim (Bool-cases (is_not_found e)) [
  | inl n ↦ cc (rw n at h)
  | inr n ↦ inr (e, rw n refl, refl)
]
committed-IdOutcome env id t panic h gone = cc

rows-IdOutcome :
    (env : AckEnv) (id : Text) (t : Tables) → IdOutcome id t (committed env t (ack_rows env id t))
unfolding ack_rows
rows-IdOutcome env id t = elim (Bool-cases env.can_read) [
  | inr c ↦ rw c (inr (external, refl, refl))
  | inl c ↦ elim (Option-cases (find_row id t.outgoing)) [
    | inl e ↦ rw (c, e) (inl (refl, e))
    | inr (om, e) ↦
        committed-IdOutcome env id t (ack_rows env id t)
          (rw (c, e)
            (ack_rows-plain env id t (acked_orders env om t.orders)
              (acked_orders-plain env om t.orders)))
          (ack_rows-gone env id t)
  ]
]

-- What was read of the payload decides.
payload-AckOutcome :
    (env : AckEnv) (m : NetMessage) (t : Tables) (o : Option Text)
    → env.unmarshal_ack m.payload ≡ o
    → AckOutcome env m t
        (elim o [ none ↦ (err external, t) | some id ↦ committed env t (ack_rows env id t) ])
payload-AckOutcome env m t none e = inr (external, refl, refl)
payload-AckOutcome env m t (some id) e = elim (rows-IdOutcome env id t) [
  | inl (k, gone) ↦ inl (k, (id, e, gone))
  | inr h ↦ inr h
]

-- An acknowledged message is not sent again: handleAckMessage either returns without error, and then
-- no row has the acknowledged ID any more, or it returns an error and has changed neither the orders nor
-- the rows.
pub handle_ack_message-AckOutcome :
    (env : AckEnv) (m : NetMessage) (t : Tables) → AckOutcome env m t (handle_ack_message env m t)
unfolding handle_ack_message
handle_ack_message-AckOutcome env m t = elim (Bool-cases (is_ack m.net_type)) [
  | inr a ↦ rw a (inr (unexpected_message, refl, refl))
  | inl a ↦ rw a (payload-AckOutcome env m t (env.unmarshal_ack m.payload) refl)
]
