-- ===== src/Messenger/Steps.antt =====
-- net/messenger.go: what may happen to a Messenger, one call at a time, in any order.
use openbazaar.Prelude.{List, ◌∷◌, ◌++◌, ◌≡◌}
use openbazaar.Proto.Common.{Text}
use openbazaar.Proto.Net.{NetMessage}
use openbazaar.Messenger.Defs.{Attempt, Net, Messenger}
use openbazaar.Messenger.Send.{
  reliably_send_message, process_ack, send_ack, retry_all_messages, finish, commit, roll_back,
}

-- The calls, at any time and with any answers of the libraries. A goroutine may end at any time.
pub data Step : Messenger → Messenger → Type 0 where
  sends :
      (net : Net) (peer : Text) (m : NetMessage) (s : Messenger)
      → Step s (reliably_send_message net peer m s).1
  is_acked : (net : Net) (id : Text) (s : Messenger) → Step s (process_ack net id s).1
  acks : (net : Net) (id peer : Text) (s : Messenger) → Step s (send_ack net id peer s)
  retries : (net : Net) (s : Messenger) → Step s (retry_all_messages net s)
  finishes :
      (s : Messenger) (before after : List Attempt) (a : Attempt)
      → s.running ≡ before ++ a ∷ after
      → Step s (finish (before ++ after) s)
  commits : (s : Messenger) → Step s (commit s)
  rolls_back : (s : Messenger) → Step s (roll_back s)

pub data Reach (s : Messenger) : Messenger → Type 0 where
  here : Reach s s
  next : {t u : Messenger} → Reach s t → Step t u → Reach s u
