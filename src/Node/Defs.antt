-- ===== src/Node/Defs.antt =====
-- core/network.go: what a node keeps of the messages that it receives, and its database of orders.
use openbazaar.Prelude.{Bool, true, false, Option, none, some, List, [], ◌∷◌, str_eq, if◌then◌else◌}
use openbazaar.Proto.Common.{Bytes, Text}
use openbazaar.Proto.Net.{OrderMessage}
use openbazaar.Order.Defs.{Order}
use openbazaar.Processor.Events.{Event}
use openbazaar.Processor.Env.{World}

-- The table of the incoming messages' IDs, that of the orders, what handlers did besides, the events
-- that were emitted, and the ACKs that were sent: a message ID, and to whom.
pub record Node : Type 0 where
  pub incoming : List Text
  pub orders : List Order
  pub world : World
  pub emitted : List Event
  pub acked : List (Text × Text)

-- ptypes.UnmarshalAny of the payload, and whether the database takes the ID and the order.
pub record NodeEnv : Type 0 where
  pub unmarshal_order : Bytes → Option OrderMessage
  pub can_save_id : Bool
  pub can_commit : Bool

unfoldable pub has_message_id : Text → List Text → Bool
has_message_id id [] = false
has_message_id id (x ∷ xs) = let rest = has_message_id id xs in if str_eq x id then true else rest

unfoldable pub save_id : Text → List Text → List Text
unfolding has_message_id
save_id id ids = if has_message_id id ids then ids else id ∷ ids

-- The row of an order, and Save of it: the primary key is the ID.
unfoldable pub find_order : Text → List Order → Option Order
find_order id [] = none
find_order id (o ∷ os) = let rest = find_order id os in if str_eq o.id id then some o else rest

unfoldable pub save_order : Order → List Order → List Order
save_order o [] = o ∷ []
save_order o (x ∷ xs) = let rest = save_order o xs in if str_eq x.id o.id then o ∷ xs else x ∷ rest
