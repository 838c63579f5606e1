-- ===== src/Order/Parked.antt =====
-- models/orders.go: the messages that arrived too early, and those that failed.
use openbazaar.Prelude.{Option, none, some, List, [], ◌∷◌, ◌++◌, ◌==◌, if◌then◌else◌}
use openbazaar.Exec.{Result, bind_result, or_external, Exec}
use openbazaar.Proto.Common.{Bytes}
use openbazaar.Proto.Net.{MessageType, OrderMessage, type_number}
use openbazaar.Proto.Codec.{Codec}
use openbazaar.Order.Defs.{Order}
use openbazaar.Order.Put.{store}

-- The field's list; nil is empty, and empty bytes are unmarshalled like any other.
unfoldable pub unmarshal_list : Codec → Option Bytes → Result (List OrderMessage)
unmarshal_list c none = Result.ok []
unmarshal_list c (some b) = or_external (c.unmarshal_orders b)

unfoldable pub append_to : Codec → OrderMessage → Option Bytes → Result Bytes
unfolding unmarshal_list
append_to c m field =
    bind_result (unmarshal_list c field) λ l. or_external (c.marshal_orders (l ++ m ∷ []))

unfoldable pub park_message : Codec → OrderMessage → Exec Order (Unit {0})
unfolding append_to
park_message c m o =
    store (append_to c m o.parked_messages) (λ b r. record r { parked_messages = some b }) o

unfoldable pub put_error_message : Codec → OrderMessage → Exec Order (Unit {0})
unfolding append_to
put_error_message c m o =
    store (append_to c m o.errored_messages) (λ b r. record r { errored_messages = some b }) o

-- The loop of DeleteParkedMessage: the first message of the type goes, and the loop breaks.
unfoldable pub delete_first : MessageType → List OrderMessage → List OrderMessage
delete_first t [] = []
delete_first t (m ∷ ms) =
    if type_number m.message_type == type_number t then ms else m ∷ delete_first t ms

unfoldable pub delete_parked_message : Codec → MessageType → Exec Order (Unit {0})
unfolding unmarshal_list
delete_parked_message c t o =
    store
      (bind_result (unmarshal_list c o.parked_messages)
        λ l. or_external (c.marshal_orders (delete_first t l)))
      (λ b r. record r { parked_messages = some b }) o
