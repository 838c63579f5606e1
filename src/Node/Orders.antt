-- ===== src/Node/Orders.antt =====
-- core/network.go: sendAckMessage, isDuplicate and handleOrderMessage.
use openbazaar.Prelude.{
  Bool, true, false, Option, none, some, List, [], ◌∷◌, ◌++◌, not, if◌then◌else◌,
}
use openbazaar.Exec.{Result, ok, err, panic, external, unexpected_message}
use openbazaar.Proto.Common.{Text}
use openbazaar.Proto.Net.{NetType, NetMessage, OrderMessage}
use openbazaar.Order.Defs.{Order}
use openbazaar.Processor.Events.{Event}
use openbazaar.Processor.Env.{Env, World}
use openbazaar.Processor.Process.{Outcome, process_message_top}
use openbazaar.Node.Defs.{Node, NodeEnv, has_message_id, save_id, find_order, save_order}

-- sendAckMessage: an error of the database is logged.
unfoldable pub send_ack_message : NodeEnv → Text → Text → Node → Node
unfolding save_id
send_ack_message ne id to n = record n {
  incoming = if ne.can_save_id then save_id id n.incoming else n.incoming;
  acked = n.acked ++ (id, to) ∷ [];
}

unfoldable pub is_duplicate : NetMessage → Node → Bool
unfolding has_message_id
is_duplicate m n = has_message_id m.message_id n.incoming

abbrev pub is_order_type : NetType → Bool
is_order_type NetType.order = true
is_order_type _ = false

-- The world of a new transaction.
abbrev pub begin : Node → World
begin n = record (n.world) { hooks = []; event = none }

-- What a transaction that is not committed leaves: what went to the database is dropped, the addresses
-- that the wallet watches and the payments that it broadcast stay.
abbrev pub after_rollback : World → Node → Node
after_rollback w n = record n {
  world = record (n.world) { watched = w.watched; released = w.released };
}

abbrev pub save_if : Option Order → List Order → List Order
save_if none os = os
save_if (some o) os = save_order o os

abbrev pub with_event : Option Event → List Event → List Event
with_event none es = es
with_event (some e) es = es ++ e ∷ []

-- The commit runs the hooks, which emit their events; then the returned event is emitted.
abbrev pub committed : Outcome → Option Event → Node → Node
committed out event n = record n {
  orders = save_if out.saved n.orders;
  world = out.world;
  emitted = with_event event (n.emitted ++ out.world.hooks);
}

abbrev pub end_transaction :
    NodeEnv → Outcome → Result (Option Event) → Node → Result (Unit {0}) × Node
end_transaction ne out (ok event) n =
    if ne.can_commit
    then (ok tt, committed out event n)
    else (err external, after_rollback out.world n)
end_transaction ne out (err e) n = (err e, after_rollback out.world n)
end_transaction ne out panic n = (panic, after_rollback out.world n)

unfoldable pub process_order : Env → NodeEnv → Text → OrderMessage → Node → Result (Unit {0}) × Node
unfolding process_message_top find_order save_order
process_order env ne from m n =
    let out = process_message_top env from m (find_order m.order_id n.orders) (begin n) in
    end_transaction ne out out.result n

-- The body of handleOrderMessage.
unfoldable pub handle_order : Env → NodeEnv → Text → NetMessage → Node → Result (Unit {0}) × Node
unfolding is_duplicate process_order
handle_order env ne from m n =
    if is_duplicate m n
    then (ok tt, n)
    else if not (is_order_type m.net_type)
    then (err unexpected_message, n)
    else elim (ne.unmarshal_order m.payload) [
      | none ↦ (err external, n)
      | some om ↦ process_order env ne from om n
    ]

-- handleOrderMessage: the deferred call runs whichever way the body ends.
unfoldable pub handle_order_message :
    Env → NodeEnv → Text → NetMessage → Node → Result (Unit {0}) × Node
unfolding handle_order send_ack_message
handle_order_message env ne from m n =
    let (r, t) = handle_order env ne from m n in (r, send_ack_message ne m.message_id from t)
