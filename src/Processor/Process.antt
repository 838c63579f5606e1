-- ===== src/Processor/Process.antt =====
-- orders/processor.go: processMessage, ProcessMessage and ProcessACK.
use openbazaar.Prelude.Sort.{sort_by}
use openbazaar.Prelude.{ℕ, Bool, true, false, Option, none, some, List, [], ◌∷◌, if◌then◌else◌}
use openbazaar.Exec.{Result, ok, err, panic, Exec, pure, raise, lift, ◌>>◌, unknown_message_type}
use openbazaar.Proto.Common.{Text}
use openbazaar.Proto.Net.{
  MessageType, OrderMessage, type_number, order_open, order_reject, order_cancel,
  order_confirmation, rating_signatures, order_fulfillment, order_complete, dispute_open, refund,
  payment_sent,
}
use openbazaar.Order.Defs.{Order, zero_order}
use openbazaar.Order.Read.{get_parked_messages}
use openbazaar.Order.Parked.{park_message, put_error_message}
use openbazaar.Processor.Events.{Event}
use openbazaar.Processor.Env.{Env, World}
use openbazaar.Processor.Guards.{verify_order_message_signature}
use openbazaar.Processor.Decisions.{
  process_order_reject, process_order_cancel, process_order_confirmation,
}
use openbazaar.Processor.Progress.{
  process_order_fulfillment, process_payment_sent, process_rating_signatures,
}
use openbazaar.Processor.Completion.{process_order_complete, process_refund}
use openbazaar.Processor.Disputes.{process_dispute_open}
use openbazaar.Processor.Opening.{process_order_open}

-- The switch of processMessage.
unfoldable pub handle : MessageType → Env → Text → OrderMessage → Exec World (Unit {0})
handle order_open env peer m = process_order_open env peer m
handle payment_sent env peer m = process_payment_sent env m
handle rating_signatures env peer m = process_rating_signatures env m
handle order_reject env peer m = process_order_reject env m
handle order_confirmation env peer m = process_order_confirmation env m
handle order_cancel env peer m = process_order_cancel env m
handle refund env peer m = process_refund env m
handle order_fulfillment env peer m = process_order_fulfillment env m
handle order_complete env peer m = process_order_complete env m
handle dispute_open env peer m = process_dispute_open env m
handle _ env peer m = raise unknown_message_type

unfoldable pub process_message : Env → Text → OrderMessage → Exec World (Unit {0})
unfolding handle
process_message env peer m = do
  lift (verify_order_message_signature env peer m)
  handle m.message_type env peer m

-- sort.Slice by the type's number, which sorts fewer than twelve messages by insertion.
abbrev pub number_of : OrderMessage → ℕ
number_of m = type_number m.message_type

unfoldable pub sort_by_type : List OrderMessage → List OrderMessage
unfolding sort_by
sort_by_type = sort_by number_of

-- A parked message that fails: it is the message that came in that is saved as errored, and an error
-- of that is logged.
unfoldable pub process_parked :
    Env → Text → OrderMessage → OrderMessage → World → Result (Unit {0}) × World
unfolding process_message
process_parked env peer m parked w =
    let (r, t) = process_message env peer parked w in
    elim r [
      | ok u ↦ (ok tt, record t { event = w.event })
      | err e ↦
          (ok tt, record t { order = (put_error_message env.codec m t.order).1; event = w.event })
      | panic ↦ (panic, t)
    ]

-- The loop over the sorted parked messages; the message that came in is skipped.
unfoldable pub process_all_parked :
    Env → Text → OrderMessage → List OrderMessage → Exec World (Unit {0})
unfolding process_parked
process_all_parked env peer m [] = pure tt
process_all_parked env peer m (p ∷ ps) =
    let rest = process_all_parked env peer m ps in
    if env.equal p m then rest else process_parked env peer m p >> rest

-- ProcessMessage, on the row that the database has under the message's order ID: what it returns,
-- and the order that it saves, if any. An event is returned also where the message failed.
pub record Outcome : Type 0 where
  pub result : Result (Option Event)
  pub saved : Option Order
  pub world : World

abbrev pub failed : Result (Unit {0}) → World → Outcome
failed r w = record {
  result = elim r [ ok u ↦ ok none | err e ↦ err e | panic ↦ panic ];
  saved = none;
  world = w;
}

abbrev pub saved_outcome : Result (Unit {0}) × World → Outcome
saved_outcome (ok u, t) = record { result = ok t.event; saved = some t.order; world = t }
saved_outcome (err e, t) = failed (err e) t
saved_outcome (panic, t) = failed panic t

-- The end of ProcessMessage: the parked messages, and the save.
unfoldable pub process_rest :
    Env → Text → OrderMessage → World → Result (List OrderMessage) → Outcome
unfolding process_all_parked sort_by_type
process_rest env peer m w (ok parked) =
    saved_outcome (process_all_parked env peer m (sort_by_type parked) w)
process_rest env peer m w (err e) = failed (err e) w
process_rest env peer m w panic = failed panic w

-- On an error the message is put to the errored messages of a copy of the order, which is saved only
-- if that fails.
unfoldable pub process_failed :
    Env → Text → OrderMessage → World → Result (Unit {0}) × Order → Outcome
unfolding process_rest
process_failed env peer m t (ok u, copy) =
    process_rest env peer m t (get_parked_messages env.codec t.order)
process_failed env peer m t (err f, copy) = record {
  result = ok none;
  saved = some copy;
  world = t;
}
process_failed env peer m t (panic, copy) = failed panic t

unfoldable pub process_done :
    Env → Text → OrderMessage → Order → Result (Unit {0}) × World → Outcome
unfolding process_rest process_failed
process_done env peer m o (ok u, t) =
    process_rest env peer m t (get_parked_messages env.codec t.order)
process_done env peer m o (err e, t) = process_failed env peer m t (put_error_message env.codec m o)
process_done env peer m o (panic, t) = failed panic t

-- The order is known, or the message opens it.
unfoldable pub process_known : Env → Text → OrderMessage → Order → World → Outcome
unfolding process_message process_done
process_known env peer m o w =
    process_done env peer m o (process_message env peer m (record w { order = o; event = none }))

abbrev pub is_order_open : MessageType → Bool
is_order_open order_open = true
is_order_open _ = false

-- The order is saved with the message parked, unless it could not be parked.
abbrev pub parked_outcome : Result (Unit {0}) × Order → World → Outcome
parked_outcome (ok u, o) w = record { result = ok none; saved = some o; world = w }
parked_outcome (err e, o) w = failed (err e) w
parked_outcome (panic, o) w = failed panic w

-- ProcessMessage, from the row that was read to what it saves. That the read or the save fails is left to
-- the transaction around it, which then does not commit.
unfoldable pub process_message_top : Env → Text → OrderMessage → Option Order → World → Outcome
unfolding process_known
process_message_top env peer m (some o) w = process_known env peer m o w
process_message_top env peer m none w =
    if is_order_open m.message_type
    then process_known env peer m zero_order w
    else parked_outcome (park_message env.codec m (record zero_order { id = m.order_id })) w
