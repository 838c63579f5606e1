-- ===== src/Messenger/Defs.antt =====
-- The state of the Messenger of net/messenger.go, with the database rows that it works on.
use openbazaar.Prelude.{ℕ, Bool, Option, List, [], ◌∷◌, str_eq, if◌then◌else◌}
use openbazaar.Proto.Common.{Bytes, Text}
use openbazaar.Proto.Net.{NetMessage}

-- models/message.go: OutgoingMessage
pub record OutgoingMessage : Type 0 where
  pub id : Text
  pub recipient : Text
  pub serialized_message : Bytes
  pub message_type : Text
  pub timestamp : ℕ
  pub last_attempt : ℕ

-- `go m.trySendMessage(peer, message, done)`
pub record Attempt : Type 0 where
  pub peer : Text
  pub message : NetMessage

-- The libraries, at the time `now`; `none` and `false` are errors that are returned.
pub record Net : Type 0 where
  pub now : ℕ
  -- proto.Marshal and proto.Unmarshal of a Message
  pub marshal : NetMessage → Option Bytes
  pub unmarshal : Bytes → Option NetMessage
  -- ptypes.MarshalAny of an AckMessage, and hex of twenty random bytes
  pub marshal_ack : Text → Option Bytes
  pub random_id : Text
  -- inet.MessageSizeMax, peer.ID.Pretty, peer.Decode, the name of a message's type
  pub message_size_max : ℕ
  pub pretty : Text → Text
  pub decode : Text → Option Text
  pub type_name : NetMessage → Text
  -- whether the database accepts a write, and a read
  pub can_write : Bool
  pub can_read : Bool

-- The rows as the open transaction sees them, the rows that are committed, the hooks of the
-- transaction, the goroutines that run trySendMessage, and the counter of the WaitGroup.
pub record Messenger : Type 0 where
  pub rows : List OutgoingMessage
  pub committed : List OutgoingMessage
  pub hooks : List Attempt
  pub running : List Attempt
  pub waiting : ℕ

-- Save of a row: the primary key is the ID.
unfoldable pub save_row : OutgoingMessage → List OutgoingMessage → List OutgoingMessage
save_row m [] = m ∷ []
save_row m (x ∷ xs) = if str_eq x.id m.id then m ∷ xs else x ∷ save_row m xs

-- Delete of the rows with the ID.
unfoldable pub delete_row : Text → List OutgoingMessage → List OutgoingMessage
delete_row id [] = []
delete_row id (x ∷ xs) = let rest = delete_row id xs in if str_eq x.id id then rest else x ∷ rest

-- Update of the column `last_attempt` in the row with the message's ID.
unfoldable pub touch_row : ℕ → Text → List OutgoingMessage → List OutgoingMessage
touch_row now id [] = []
touch_row now id (x ∷ xs) =
    (if str_eq x.id id then record x { last_attempt = now } else x) ∷ touch_row now id xs
