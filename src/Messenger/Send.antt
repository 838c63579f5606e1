-- ===== src/Messenger/Send.antt =====
-- net/messenger.go: ReliablySendMessage, ProcessACK, SendACK, retryAllMessages, and the end of
-- trySendMessage.
use openbazaar.Prelude.{
  ◌+◌, ◌-◌, Bool, true, false, Option, none, some, List, [], ◌∷◌, ◌++◌, not, ltb, length,
  if◌then◌else◌,
}
use openbazaar.Exec.{ok, err, Exec, external, message_too_large}
use openbazaar.Proto.Common.{Bytes, Text}
use openbazaar.Proto.Net.{NetMessage, ack}
use openbazaar.Backoff.{should_we_retry}
use openbazaar.Messenger.Defs.{
  OutgoingMessage, Attempt, Net, Messenger, save_row, delete_row, touch_row,
}

-- m.wg.Add(1) and m.wg.Done()
abbrev pub add_one : Messenger → Messenger
add_one s = record s { waiting = s.waiting + 1 }

abbrev pub done_one : Messenger → Messenger
done_one s = record s { waiting = s.waiting - 1 }

-- The row of a message that is sent for the first time.
abbrev pub new_row : Net → Text → NetMessage → Bytes → OutgoingMessage
new_row net peer message ser = record {
  id = message.message_id;
  recipient = net.pretty peer;
  serialized_message = ser;
  message_type = net.type_name message;
  timestamp = net.now;
  last_attempt = net.now;
}

-- ReliablySendMessage. A message that is too large leaves the counter raised.
unfoldable pub save_and_send : Net → Text → NetMessage → Bytes → Exec Messenger (Unit {0})
save_and_send net peer message ser s =
    if ltb net.message_size_max (length ser)
    then (err message_too_large, s)
    else if not net.can_write
    then (err external, done_one s)
    else (
      ok tt,
      record s {
        rows = save_row (new_row net peer message ser) s.rows;
        hooks = s.hooks ++ record { peer = peer; message = message } ∷ [];
      },
    )

unfoldable pub reliably_send_message : Net → Text → NetMessage → Exec Messenger (Unit {0})
unfolding save_and_send
reliably_send_message net peer message s = elim (net.marshal message) [
  | none ↦ (err external, done_one (add_one s))
  | some ser ↦ save_and_send net peer message ser (add_one s)
]

-- ProcessACK
unfoldable pub process_ack : Net → Text → Exec Messenger (Unit {0})
process_ack net id s =
    if net.can_write then (ok tt, record s { rows = delete_row id s.rows }) else (err external, s)

-- SendACK. An ACK that cannot be marshalled leaves the counter raised.
abbrev pub ack_attempt : Net → Text → Bytes → Attempt
ack_attempt net peer payload = record {
  peer = peer;
  message = record { net_type = ack; message_id = net.random_id; sequence = 0; payload = payload };
}

unfoldable pub send_ack : Net → Text → Text → Messenger → Messenger
send_ack net id peer s = elim (net.marshal_ack id) [
  | none ↦ add_one s
  | some payload ↦ record (add_one s) { running = s.running ++ ack_attempt net peer payload ∷ [] }
]

-- Both `continue`s and the test: no attempt, if the row cannot be read or it is not yet time.
abbrev attempt_of : Option NetMessage → Option Text → Bool → Option Attempt
attempt_of none peer retry = none
attempt_of (some m) none retry = none
attempt_of (some m) (some peer) false = none
attempt_of (some m) (some peer) true = some (record { peer = peer; message = m })

unfoldable pub due : Net → OutgoingMessage → Option Attempt
due net row =
    attempt_of (net.unmarshal row.serialized_message) (net.decode row.recipient)
      (should_we_retry net.now row.timestamp row.last_attempt)

-- One row in the loop of retryAllMessages: the update is a transaction of its own, whose error is only
-- logged.
unfoldable pub retry_row : Net → OutgoingMessage → Option Attempt → Messenger → Messenger
retry_row net row none s = s
retry_row net row (some a) s = record s {
  waiting = s.waiting + 1;
  running = s.running ++ a ∷ [];
  rows = if net.can_write then touch_row net.now row.id s.rows else s.rows;
  committed = if net.can_write then touch_row net.now row.id s.committed else s.committed;
}

unfoldable pub retry_rows : Net → List OutgoingMessage → Messenger → Messenger
unfolding retry_row due
retry_rows net [] s = s
retry_rows net (row ∷ rest) s = retry_rows net rest (retry_row net row (due net row) s)

-- retryAllMessages
unfoldable pub retry_all_messages : Net → Messenger → Messenger
unfolding retry_rows
retry_all_messages net s =
    if net.can_read then done_one (retry_rows net s.committed (add_one s)) else done_one (add_one s)

-- The end of a goroutine that runs trySendMessage: m.wg.Done()
unfoldable pub finish : List Attempt → Messenger → Messenger
finish rest s = record (done_one s) { running = rest }

-- The end of the transaction: the hooks run after a commit, and never after a rollback.
unfoldable pub commit : Messenger → Messenger
commit s = record s { committed = s.rows; running = s.running ++ s.hooks; hooks = [] }

unfoldable pub roll_back : Messenger → Messenger
roll_back s = record s { rows = s.committed; hooks = [] }
