-- ===== src/Examples/Processing.antt =====
-- The theorems about the processor and the backoff at concrete inputs.
use openbazaar.Prelude.{ℕ, ◌≤◌, ◌<◌, true, false, none, some, [], ◌∷◌, ◌++◌, ◌≡◌, refl, ltb}
use openbazaar.Exec.{ok}
use openbazaar.Proto.Net.{order_cancel}
use openbazaar.Order.Defs.{zero_order, role_buyer}
use openbazaar.Processor.Env.{Env, World}
use openbazaar.Processor.Process.{handle, process_message, process_message_top}
use openbazaar.Processor.Repeated.{handle_seen, tests_cancel}
use openbazaar.Machine.Moves.{flags, Moves}
use openbazaar.Machine.Invariant.{IsConsistent}
use openbazaar.Machine.Handlers.{process_message-Moves}
use openbazaar.Machine.Saved.{IsFineRow, process_message_top-IsConsistent}
use openbazaar.Proto.Net.{NetType, NetMessage}
use openbazaar.Node.Defs.{Node, NodeEnv}
use openbazaar.Node.Orders.{handle_order_message}
use openbazaar.Node.Once.{handle_order_message-once, now, handled}
use openbazaar.Node.Rows.{AreConsistent, handle_order_message-AreConsistent}
use openbazaar.Backoff.{since, should_we_retry, retry_interval, should_we_retry_lem}
use openbazaar.Examples.Toy.{toy, any_body, write_json, cancel, cancel_message}

abbrev pub env : Env
env = record {
  codec = toy;
  identity = "buyer";
  pretty = λ p. p;
  decode = λ t. some t;
  extract_public_key = λ p. some [];
  marshal_order_message = λ m. some [];
  verify = λ k b s. some true;
  equal = λ m n. false;
  marshal_any = λ k m. some [];
  marshal_payload = λ m. some [];
  marshal_contract = λ c. some [];
  sign = λ b. some [];
  random_id = some "id";
  now = 0;
  wallet_for = λ coin. some (record {
    get_transaction = λ t. none;
    watch_address = λ a. true;
    is_escrow = false;
    sign_multisig = λ t c s. none;
    build_and_send = λ t s b. false;
  });
  send_error = λ p m. none;
  hash_listing = λ l. some "h";
  marshal_rating_signature = λ r. some [];
  unmarshal_public_key = λ b. some b;
  decode_hex = λ t. some [];
  is_integer = λ t. true;
  validate_order_open = λ m id role. none;
  error_text = λ e. "";
  validate_rating = λ r. none;
  add_rating = λ r. none;
}

-- A buyer's order that is open.
abbrev pub world : World
world = record {
  order = record zero_order {
    id = "order";
    my_role = role_buyer;
    order_open = record { serialized = some (9 ∷ []); signature = "" };
  };
  outbox = [];
  hooks = [];
  watched = [];
  ratings = [];
  released = [];
  event = none;
}

-- The same when it is cancelled, and when it is confirmed.
abbrev cancelled : World
cancelled = record world {
  order = record (world.order) {
    order_cancel = record { serialized = some (2 ∷ []); signature = "" };
  };
}

abbrev confirmed : World
confirmed = record world {
  order = record (world.order) {
    order_confirmation = record { serialized = some (6 ∷ []); signature = "" };
  };
}

world-IsConsistent : IsConsistent (flags world.order)
unfolding flags
world-IsConsistent = record {
  opened = λ h. refl;
  exclusive = refl;
  confirmed = λ h. cc h;
  unhandled = refl;
}

process_message-Moves_example :
    Moves (flags world.order) (flags (process_message env "seller" cancel_message world).1.order)
process_message-Moves_example =
    process_message-Moves env "seller" cancel_message world world-IsConsistent

handle_seen_example : handle order_cancel env "buyer" cancel_message cancelled ≡ (ok tt, cancelled)
unfolding any_body write_json
handle_seen_example =
    handle_seen env "buyer" cancel_message cancelled order_cancel cancel (2 ∷ []) (2 ∷ [])
      tests_cancel refl refl refl

-- Two minutes after the message was sent.
should_we_retry_lem_example :
    (should_we_retry 120000000000 0 0 ≡ ltb (retry_interval 120000000000) 120000000000)
    × ((120000000000 ≤ 60000000000 → should_we_retry 120000000000 0 0 ≡ false)
        × (604800000000000 < 120000000000 → should_we_retry 120000000000 0 0 ≡ true))
    × ((u : ℕ) → 0 ≤ u → retry_interval (since 120000000000 u) ≤ retry_interval 120000000000)
should_we_retry_lem_example = should_we_retry_lem 120000000000 0 0

process_message_top-IsConsistent_example :
    IsFineRow (process_message_top env "seller" cancel_message (some world.order) world).saved
process_message_top-IsConsistent_example =
    process_message_top-IsConsistent env "seller" cancel_message (some world.order) world
      world-IsConsistent

-- A node that has the order, and the message that cancels it.
abbrev node : Node
node = record { incoming = []; orders = world.order ∷ []; world = world; emitted = []; acked = [] }

abbrev node_env : NodeEnv
node_env = record {
  unmarshal_order = λ b. some cancel_message;
  can_save_id = true;
  can_commit = true;
}

abbrev carried : NetMessage
carried = record { net_type = NetType.order; message_id = "m1"; sequence = 0; payload = [] }

abbrev after : Node
after = (handle_order_message env node_env "buyer" carried node).1

-- Another message comes in between.
abbrev in_between : NetMessage
in_between = record carried { message_id = "m2" }

abbrev later : Node
later = (handle_order_message env node_env "mallory" in_between after).1

handle_order_message-once_example :
    handle_order_message env node_env "eve" carried later
    ≡ (ok tt, record later { acked = later.acked ++ ("m1", "eve") ∷ [] })
handle_order_message-once_example =
    handle_order_message-once env env node_env node_env "buyer" "eve" carried carried node later
      refl refl (handled env node_env "mallory" in_between now)

handle_order_message-AreConsistent_example : AreConsistent after.orders
handle_order_message-AreConsistent_example =
    handle_order_message-AreConsistent env node_env "buyer" carried node (world-IsConsistent, tt)
