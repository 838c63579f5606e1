-- ===== src/Processor/Guards.antt =====
-- orders/processor.go: isDuplicate and verifyOrderMessageSignature, and the openings that the
-- handlers share.
use openbazaar.Prelude.{Bool, Option, none, some, [], ◌&&◌, not, is_some, bytes_eq, if◌then◌else◌}
use openbazaar.Exec.{
  Result, ok, err, panic, bind_result, or_external, or_panic, Exec, raise, lift,
  message_does_not_exist, changed_message, invalid_signature,
}
use openbazaar.Proto.Common.{Bytes, Text}
use openbazaar.Proto.Net.{OrderMessage}
use openbazaar.Proto.Orders.{OrderOpen}
use openbazaar.Proto.Codec.{Codec, Kind, Body}
use openbazaar.Order.Read.{order_open_message}
use openbazaar.Order.Parked.{park_message}
use openbazaar.Processor.Env.{Env, World, on_order}

-- nil and empty bytes are equal for bytes.Equal.
abbrev bytes_of : Option Bytes → Bytes
bytes_of none = []
bytes_of (some b) = b

unfoldable pub is_duplicate : Codec → (k : Kind) → Body k → Option Bytes → Result Bool
is_duplicate c k msg field =
    bind_result (or_external (c.marshal_json k msg)) λ ser. ok (bytes_eq ser (bytes_of field))

-- The opening of a handler whose message an order keeps one of: an error if another message is
-- there, and true if this one is, so that the handler returns.
unfoldable pub seen_before : Codec → (k : Kind) → Body k → Option Bytes → Result Bool
unfolding is_duplicate
seen_before c k msg field =
    bind_result (is_duplicate c k msg field)
      λ dup. if is_some field && not dup then err changed_message else ok dup

-- `orderOpen, err := order.OrderOpenMessage()`, and the tests of `err` that follow: a message that
-- comes before ORDER_OPEN is parked.
abbrev pub park_or :
    {A : Type 0}
    → Result A
    → Exec World (Unit {0})
    → (A → Exec World (Unit {0}))
    → Exec World (Unit {0})
park_or (ok m) park k = k m
park_or (err message_does_not_exist) park k = park
park_or (err e) park k = raise e
park_or panic park k = lift panic

unfoldable pub with_order_open :
    Env → OrderMessage → (OrderOpen → Exec World (Unit {0})) → Exec World (Unit {0})
with_order_open env m k w =
    park_or (order_open_message env.codec w.order) (on_order (park_message env.codec m)) k w

-- verifyOrderMessageSignature. The error of ExtractPublicKey is overwritten before it is tested, and
-- the missing key is then used.
unfoldable pub verify_order_message_signature : Env → Text → OrderMessage → Result (Unit {0})
verify_order_message_signature env peer m =
    bind_result (or_external (env.marshal_order_message (record m { signature = [] }))) λ ser.
      bind_result (or_panic (env.extract_public_key peer)) λ key.
        bind_result (or_external (env.verify key ser m.signature))
          λ valid. if not valid then err invalid_signature else ok tt
