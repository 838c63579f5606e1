-- ===== src/Messenger/Retry.antt =====
-- net/messenger.go: what retryAllMessages sends.
use openbazaar.Prelude.{
  ◌-◌, ◌<◌, true, Option, none, some, List, [], ◌∷◌, ◌++◌, ◌≡◌, refl, ◌⊎◌, inl, inr,
}
use openbazaar.Proto.Common.{Text}
use openbazaar.Proto.Net.{NetMessage}
use openbazaar.Backoff.{should_we_retry, should_we_retry_lem}
use openbazaar.Messenger.Defs.{OutgoingMessage, Attempt, Net, Messenger}
use openbazaar.Messenger.Send.{add_one, due, retry_row, retry_rows, retry_all_messages}

-- The list holds the attempt.
abbrev pub Sends : Attempt → List Attempt → Type 0
Sends a [] = ⊥
Sends a (x ∷ xs) = (x ≡ a) ⊎ Sends a xs

abbrev pub Holds : OutgoingMessage → List OutgoingMessage → Type 0
Holds row [] = ⊥
Holds row (x ∷ xs) = (x ≡ row) ⊎ Holds row xs

Sends-append_left : (a : Attempt) (xs ys : List Attempt) → Sends a xs → Sends a (xs ++ ys)
Sends-append_left a [] ys h = elim h [ ]
Sends-append_left a (x ∷ xs) ys (inl e) = inl e
Sends-append_left a (x ∷ xs) ys (inr h) = inr (Sends-append_left a xs ys h)

Sends-append_last : (a : Attempt) (xs : List Attempt) → Sends a (xs ++ a ∷ [])
Sends-append_last a [] = inl refl
Sends-append_last a (x ∷ xs) = inr (Sends-append_last a xs)

retry_row-Sends :
    (net : Net) (row : OutgoingMessage) (b : Option Attempt) (s : Messenger) (a : Attempt)
    → Sends a s.running
    → Sends a (retry_row net row b s).running
unfolding retry_row
retry_row-Sends net row none s a h = h
retry_row-Sends net row (some b) s a h = Sends-append_left a s.running (b ∷ []) h

retry_rows-Sends :
    (net : Net) (rows : List OutgoingMessage) (s : Messenger) (a : Attempt)
    → Sends a s.running
    → Sends a (retry_rows net rows s).running
unfolding retry_rows
retry_rows-Sends net [] s a h = h
retry_rows-Sends net (row ∷ rest) s a h =
    retry_rows-Sends net rest _ a (retry_row-Sends net row (due net row) s a h)

retry_row-new :
    (net : Net) (row : OutgoingMessage) (s : Messenger) (a : Attempt)
    → due net row ≡ some a
    → Sends a (retry_row net row (due net row) s).running
unfolding retry_row
retry_row-new net row s a e = rw e (Sends-append_last a s.running)

retry_rows-new :
    (net : Net) (rows : List OutgoingMessage) (s : Messenger) (row : OutgoingMessage) (a : Attempt)
    → Holds row rows
    → due net row ≡ some a
    → Sends a (retry_rows net rows s).running
unfolding retry_rows
retry_rows-new net [] s row a h e = elim h [ ]
retry_rows-new net (x ∷ xs) s row a (inl same) e =
    retry_rows-Sends net xs _ a (retry_row-new net x s a (rw same e))
retry_rows-new net (x ∷ xs) s row a (inr h) e = retry_rows-new net xs _ row a h e

-- The wait is over by the backoff, or a week has passed.
abbrev pub IsLate : Net → OutgoingMessage → Type 0
IsLate net row =
    (should_we_retry net.now row.timestamp row.last_attempt ≡ true)
    ⊎ (604800000000000 < net.now - row.last_attempt)

IsLate-retry :
    (net : Net) (row : OutgoingMessage)
    → IsLate net row
    → should_we_retry net.now row.timestamp row.last_attempt ≡ true
IsLate-retry net row (inl e) = e
IsLate-retry net row (inr h) = (should_we_retry_lem net.now row.timestamp row.last_attempt).1.1 h

due_lem :
    (net : Net) (row : OutgoingMessage) (m : NetMessage) (peer : Text)
    → net.unmarshal row.serialized_message ≡ some m
    → net.decode row.recipient ≡ some peer
    → IsLate net row
    → due net row ≡ some (record { peer = peer; message = m })
unfolding due
due_lem net row m peer hm hp late = rw (hm, hp, IsLate-retry net row late) refl

-- A message that nobody acknowledges is sent again: when retryAllMessages runs and can read the
-- database, every committed row that can be read, and whose last attempt is more than a week ago or as
-- long ago as shouldWeRetry asks for, is sent by a goroutine to its recipient.
pub retry_all_messages-Sends :
    (net : Net) (s : Messenger) (row : OutgoingMessage) (m : NetMessage) (peer : Text)
    → net.can_read ≡ true
    → Holds row s.committed
    → net.unmarshal row.serialized_message ≡ some m
    → net.decode row.recipient ≡ some peer
    → IsLate net row
    → Sends (record { peer = peer; message = m }) (retry_all_messages net s).running
unfolding retry_all_messages
retry_all_messages-Sends net s row m peer readable h hm hp late =
    rw readable
      (retry_rows-new net s.committed (add_one s) row _ h (due_lem net row m peer hm hp late))
