-- ===== src/Examples/Commands.antt =====
-- The results on the commands of a node at a buyer's open order with a cancelable payment.
use openbazaar.Prelude.{
  Bool, true, map, is_some, is_nil, if◌then◌else◌, Option, none, some, [], ◌∷◌, ◌≡◌, refl,
}
use openbazaar.Prelude.Int.{pos, ◌+ℤ◌, ◌-ℤ◌}
use openbazaar.Pricing.Amounts.{◌*ℤ◌}
use openbazaar.Exec.{ok, ◌>>=◌}
use openbazaar.Proto.Common.{Bytes}
use openbazaar.Proto.Orders.{OrderOpen, cancelable}
use openbazaar.Proto.Codec.{Kind, Body, open_kind}
use openbazaar.Order.Defs.{Order}
use openbazaar.Order.Read.{
  order_open_message, read_message, buyer, vendor, vendor_of, get_transactions, get_parked_messages,
  get_order_list,
}
use openbazaar.Order.Status.{can_cancel}
use openbazaar.Order.Put.{put_message}
use openbazaar.Processor.Guards.{verify_order_message_signature, seen_before, with_order_open}
use openbazaar.Processor.Events.{notice_of}
use openbazaar.Processor.Decisions.{process_order_cancel, process_order_reject}
use openbazaar.Processor.Opening.{process_order_open}
use openbazaar.Processor.Env.{Env}
use openbazaar.Node.Defs.{NodeEnv}
use openbazaar.Node.Orders.{handle_order_message}
use openbazaar.Proto.Net.{NetType, NetMessage, order_open}
use openbazaar.Node.Rows.{AreConsistent}
use openbazaar.Commands.Defs.{Purse, Commander, Shop}
use openbazaar.Commands.Release.{SignedRelease, cancelable_release}
use openbazaar.Commands.Decisions.{cancel_order}
use openbazaar.Commands.Released.{IsRelease, cancelable_release-IsRelease}
use openbazaar.Commands.Run.{run, confirm}
use openbazaar.Commands.Life.{here, next, commands, receives, Reach-AreConsistent}
use openbazaar.Commands.Cancelled.{IsCancelled, cancel_order-IsCancelled}
use openbazaar.Examples.Toy.{
  toy, opened, payment, any_body, read_json, write_json, write_orders, reject_message,
}
use openbazaar.Examples.Processing.{env, world}

abbrev by_escrow_opened : OrderOpen
by_escrow_opened = record opened { payment = some (record payment { method = cancelable }) }

unfoldable read_open : (k : Kind) → Bytes → Option (Body k)
unfolding read_json
read_open open_kind b = some by_escrow_opened
read_open k b = read_json k b

abbrev escrow_env : Env
escrow_env = record env { codec = record toy { unmarshal_json = read_open } }

abbrev purse : Purse
purse = record {
  wallet = record {
    get_transaction = λ t. none;
    watch_address = λ a. true;
    is_escrow = true;
    sign_multisig = λ t c s. some [];
    build_and_send = λ t s b. true;
  };
  current_address = some "mine";
  new_address = some "mine";
  escrow_fee = λ n. some (pos 2);
  can_begin = true;
  build_and_send = λ t s b. some "paid";
  spend = λ a n. some "paid";
  can_commit = true;
}

abbrev node_env : NodeEnv
node_env = record { unmarshal_order = λ b. none; can_save_id = true; can_commit = true }

abbrev commander : Commander
commander = record {
  env = escrow_env;
  node_env = node_env;
  random_id = λ n. "id";
  purse_for = λ coin. some purse;
  half = λ n. pos 1;
  show = λ n. "4";
  wire = λ note d. [];
}

abbrev order : Order
order = record (world.order) { transactions = some (5 ∷ []) }

abbrev shop : Shop
shop = record {
  node = record { incoming = []; orders = order ∷ []; world = world; emitted = []; acked = [] };
  unended = 0;
  paid = [];
}

abbrev after : Shop
after = (cancel_order commander "order" shop).1

cancels : cancel_order commander "order" shop ≡ (ok tt, after)
unfolding cancel_order read_open write_json write_orders ◌>>=◌ can_cancel order_open_message
    read_message buyer vendor vendor_of get_transactions verify_order_message_signature
    process_order_cancel any_body seen_before with_order_open notice_of put_message
    get_parked_messages get_order_list
cancels = refl

cancel_order-IsCancelled_example : IsCancelled commander "order" shop after
cancel_order-IsCancelled_example = cancel_order-IsCancelled commander "order" shop after cancels

abbrev released : SignedRelease
released = (
  purse,
  record {
    txid = "";
    from = record { id = []; address = "addr"; amount = pos 6 } ∷ [];
    to = record { id = []; address = "mine"; amount = pos 4 } ∷ [];
    value = pos 0;
    timestamp = 0;
  },
  [],
  [],
)

cancelable_release-IsRelease_example : IsRelease commander order released
unfolding cancelable_release read_open order_open_message read_message get_transactions ◌-ℤ◌ ◌+ℤ◌
    ◌*ℤ◌
cancelable_release-IsRelease_example = cancelable_release-IsRelease commander order released refl

-- A node with no orders gets an ORDER_OPEN and then an ORDER_REJECT, and then its user tries to confirm
-- the order.
abbrev new_shop : Shop
new_shop = record shop { node = record (shop.node) { orders = [] } }

unfoldable open_body : (k : Kind) → Bytes → Option (Body k)
unfolding any_body
open_body open_kind b = some opened
open_body k b = any_body k b

unfoldable write_open : (k : Kind) → Body k → Option Bytes
unfolding write_json
write_open open_kind m = some (9 ∷ [])
write_open k m = write_json k m

abbrev life_env : Env
life_env = record env {
  codec = record toy { unmarshal_any = open_body; marshal_json = write_open };
}

-- The payload names the message.
abbrev mail_env : NodeEnv
mail_env = record node_env {
  unmarshal_order = λ b.
      some
        (if is_nil b then record reject_message { message_type = order_open } else reject_message);
}

abbrev carries_open : NetMessage
carries_open = record { net_type = NetType.order; message_id = "m1"; sequence = 0; payload = [] }

abbrev carries_reject : NetMessage
carries_reject = record carries_open { message_id = "m2"; payload = 3 ∷ [] }

abbrev opened_shop : Shop
opened_shop = record new_shop {
  node = (handle_order_message life_env mail_env "buyer" carries_open new_shop.node).1;
}

abbrev rejected_shop : Shop
rejected_shop = record opened_shop {
  node = (handle_order_message life_env mail_env "seller" carries_reject opened_shop.node).1;
}

abbrev living : Shop
living = (run commander (confirm "order") rejected_shop).1

Reach-AreConsistent_example : AreConsistent living.node.orders
Reach-AreConsistent_example = Reach-AreConsistent new_shop living refl (
    next
      (next (next here (receives life_env mail_env "buyer" carries_open new_shop))
        (receives life_env mail_env "seller" carries_reject opened_shop))
      (commands commander (confirm "order") rejected_shop))

-- There is one order, which is opened and rejected.
rejected_shop_orders :
    map {B = Bool × Bool}
      (λ o. (is_some o.order_open.serialized, is_some o.order_reject.serialized))
      rejected_shop.node.orders
    ≡ (true, true) ∷ []
unfolding handle_order_message open_body write_open read_json put_message ◌>>=◌
    verify_order_message_signature seen_before with_order_open get_parked_messages get_order_list
    order_open_message read_message notice_of process_order_open process_order_reject vendor_of
rejected_shop_orders = refl
