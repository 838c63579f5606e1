-- ===== src/Examples/Messaging.antt =====
-- The theorems about the messenger at concrete inputs.
use openbazaar.Prelude.{
  ◌+◌, ◌≤◌, ◌<◌, true, some, List, [], ◌∷◌, ◌++◌, ◌≡◌, ◌⊎◌, inl, inr, refl, length, is_some, arith,
}
use openbazaar.Proto.Net.{NetMessage, order}
use openbazaar.Messenger.Defs.{OutgoingMessage, Attempt, Net, Messenger}
use openbazaar.Messenger.Send.{reliably_send_message, save_and_send, retry_all_messages, commit}
use openbazaar.Messenger.Steps.{here, next, sends, commits}
use openbazaar.Messenger.Balance.{new_messenger, too_large, Reach-covers, Reach-Leaks}
use openbazaar.Messenger.Rows.{find_row}
use openbazaar.Messenger.Outbox.{Reach-Kept}
use openbazaar.Messenger.Retry.{Sends, retry_all_messages-Sends}

abbrev pub hello : NetMessage
hello = record { net_type = order; message_id = "m1"; sequence = 4; payload = 1 ∷ [] }

-- Every message is written as one byte, and read back as `hello`.
abbrev net : Net
net = record {
  now = 900000000000000;
  marshal = λ m. some (7 ∷ []);
  unmarshal = λ b. some hello;
  marshal_ack = λ id. some [];
  random_id = "r";
  message_size_max = 100;
  pretty = λ p. p;
  decode = λ t. some t;
  type_name = λ m. "ORDER";
  can_write = true;
  can_read = true;
}

-- The same with a limit of no bytes.
abbrev narrow : Net
narrow = record net { message_size_max = 0 }

abbrev sent : Messenger
sent = (reliably_send_message net "bob" hello (new_messenger [])).1

Reach-covers_example :
    (length sent.running + length sent.hooks ≤ sent.waiting)
    × ((sent.running ≡ []) ⊎ (0 < sent.waiting))
Reach-covers_example = Reach-covers [] (next here (sends net "bob" hello (new_messenger [])))

Reach-Leaks_example :
    0 < (commit (reliably_send_message narrow "bob" hello (new_messenger [])).1).waiting
unfolding reliably_send_message save_and_send
Reach-Leaks_example =
    Reach-Leaks [] here
      (too_large narrow "bob" hello (7 ∷ []) (new_messenger []) refl (omega arith))
      (next here (commits _))

abbrev pub row : OutgoingMessage
row = record {
  id = "m1";
  recipient = "bob";
  serialized_message = 7 ∷ [];
  message_type = "ORDER";
  timestamp = 5;
  last_attempt = 5;
}

Reach-Kept_example :
    (is_some (find_row "m1" (commit sent).committed) ≡ true)
    × ((before : List Attempt) × ((commit sent).running
          ≡ before ++ record { peer = "bob"; message = hello } ∷ []))
unfolding reliably_send_message save_and_send
Reach-Kept_example = Reach-Kept net "bob" hello (new_messenger []) refl here refl

retry_all_messages-Sends_example :
    Sends
      (record { peer = "bob"; message = hello })
      (retry_all_messages net (new_messenger (row ∷ []))).running
retry_all_messages-Sends_example =
    retry_all_messages-Sends net (new_messenger (row ∷ [])) row hello "bob" refl (inl refl) refl
      refl (inr (omega arith))
