-- ===== src/Messenger/Outbox.antt =====
-- net/messenger.go: how long the row of a message stays.
use openbazaar.Prelude.{
  Bool, true, false, Option, none, some, List, [], ◌∷◌, ◌++◌, ◌≡◌, refl, sym, ◌&&◌, not, str_eq,
  eq_refl, is_some, append_assoc, arith, Option-cases, Bool-cases, inl, inr,
}
use openbazaar.Exec.{ok}
use openbazaar.Proto.Common.{Bytes, Text}
use openbazaar.Proto.Net.{NetMessage}
use openbazaar.Messenger.Defs.{OutgoingMessage, Attempt, Net, Messenger, save_row}
use openbazaar.Messenger.Send.{
  add_one, new_row, save_and_send, reliably_send_message, process_ack, send_ack, due, retry_row,
  retry_rows, retry_all_messages, finish, commit, roll_back,
}
use openbazaar.Messenger.Steps.{
  Step, sends, is_acked, acks, retries, finishes, commits, rolls_back, Reach, here, next,
}
use openbazaar.Messenger.Rows.{find_row, find-save, find-delete, find-touch}

-- A row with the ID is there, for the open transaction and for good.
abbrev pub Kept : Text → Messenger → Type 0
Kept id s = (is_some (find_row id s.rows) ≡ true) × (is_some (find_row id s.committed) ≡ true)

save-Kept :
    (id : Text) (net : Net) (peer : Text) (m : NetMessage) (ser : Bytes) (s : Messenger)
    → Kept id s
    → Kept id (save_and_send net peer m ser s).1
unfolding save_and_send
save-Kept id net peer m ser s h = ground (arith, find-save id (new_row net peer m ser) s.rows)

send-Kept :
    (id : Text) (net : Net) (peer : Text) (m : NetMessage) (s : Messenger)
    → Kept id s
    → Kept id (reliably_send_message net peer m s).1
unfolding reliably_send_message
send-Kept id net peer m s h = elim (Option-cases (net.marshal m)) [
  | inl e ↦ rw (e, reliably_send_message) h
  | inr (ser, e) ↦ rw (e, reliably_send_message) (save-Kept id net peer m ser (add_one s) h)
]

ack-Kept :
    (id : Text) (net : Net) (id' : Text) (s : Messenger)
    → str_eq id' id ≡ false
    → Kept id s
    → Kept id (process_ack net id' s).1
unfolding process_ack
ack-Kept id net id' s other h = ground (arith, find-delete id id' s.rows)

send_ack-Kept :
    (id : Text) (net : Net) (id' peer : Text) (s : Messenger)
    → Kept id s
    → Kept id (send_ack net id' peer s)
unfolding send_ack
send_ack-Kept id net id' peer s h = elim (Option-cases (net.marshal_ack id')) [
  | inl e ↦ rw (e, send_ack) h
  | inr (payload, e) ↦ rw (e, send_ack) h
]

retry_row-Kept :
    (id : Text) (net : Net) (row : OutgoingMessage) (a : Option Attempt) (s : Messenger)
    → Kept id s
    → Kept id (retry_row net row a s)
unfolding retry_row
retry_row-Kept id net row none s h = h
retry_row-Kept id net row (some a) s h =
    ground (arith, find-touch id row.id net.now s.rows, find-touch id row.id net.now s.committed)

retry_rows-Kept :
    (id : Text) (net : Net) (rows : List OutgoingMessage) (s : Messenger)
    → Kept id s
    → Kept id (retry_rows net rows s)
unfolding retry_rows
retry_rows-Kept id net [] s h = h
retry_rows-Kept id net (row ∷ rest) s h =
    retry_rows-Kept id net rest _ (retry_row-Kept id net row (due net row) s h)

retry-Kept :
    (id : Text) (net : Net) (s : Messenger) → Kept id s → Kept id (retry_all_messages net s)
unfolding retry_all_messages
retry-Kept id net s h = elim (Bool-cases net.can_read) [
  | inl e ↦ rw e (retry_rows-Kept id net s.committed (add_one s) h)
  | inr e ↦ rw e h
]

-- The call is not ProcessACK for the ID.
abbrev pub spares : {s t : Messenger} → Text → Step s t → Bool
spares id (is_acked net id' s) = not (str_eq id' id)
spares id _ = true

abbrev pub all_spare : {s t : Messenger} → Text → Reach s t → Bool
all_spare id here = true
all_spare id (next r st) = all_spare id r && spares id st

Step-Kept :
    (id : Text) {s t : Messenger} (st : Step s t) → spares id st ≡ true → Kept id s → Kept id t
unfolding finish commit roll_back
Step-Kept id (sends net peer m s) e h = send-Kept id net peer m s h
Step-Kept id (is_acked net id' s) e h = ack-Kept id net id' s (ground arith) h
Step-Kept id (acks net id' peer s) e h = send_ack-Kept id net id' peer s h
Step-Kept id (retries net s) e h = retry-Kept id net s h
Step-Kept id (finishes s before after a e') e h = h
Step-Kept id (commits s) e h = (h.0, h.0)
Step-Kept id (rolls_back s) e h = (h.1, h.1)

-- What a call without error did.
record Accepted (net : Net) (peer : Text) (m : NetMessage) (s t : Messenger) : Type 0 where
  ser : Bytes
  saved : t.rows ≡ save_row (new_row net peer m ser) s.rows
  hooked : t.hooks ≡ s.hooks ++ record { peer = peer; message = m } ∷ []
  same : t.running ≡ s.running

save-Accepted :
    (net : Net) (peer : Text) (m : NetMessage) (ser : Bytes) (s : Messenger)
    → (save_and_send net peer m ser s).0 ≡ ok tt
    → Accepted net peer m s (save_and_send net peer m ser s).1
unfolding save_and_send
save-Accepted net peer m ser s done = record {
  ser = ser;
  saved = ground arith;
  hooked = ground arith;
  same = ground arith;
}

send-Accepted :
    (net : Net) (peer : Text) (m : NetMessage) (s : Messenger)
    → (reliably_send_message net peer m s).0 ≡ ok tt
    → Accepted net peer m (add_one s) (reliably_send_message net peer m s).1
unfolding reliably_send_message
send-Accepted net peer m s done = elim (Option-cases (net.marshal m)) [
  | inl e ↦ cc (rw (e, reliably_send_message) at done)
  | inr (ser, e) ↦
      rw (e, reliably_send_message)
        (save-Accepted net peer m ser (add_one s) (rw (e, reliably_send_message) at done))
]

-- Calls of which none is ProcessACK for the ID keep its row.
all_spare-Kept :
    (id : Text) {s t : Messenger} (r : Reach s t) → all_spare id r ≡ true → Kept id s → Kept id t
all_spare-Kept id here e h = h
all_spare-Kept id (next r st) e h =
    Step-Kept id st (ground arith) (all_spare-Kept id r (ground arith) h)

-- A message is not forgotten until it is acknowledged: once ReliablySendMessage has returned without
-- error and the transaction is committed, a goroutine sends it, and a row with its ID is in the
-- database after any calls in any order, of which none is ProcessACK for that ID.
pub Reach-Kept :
    (net : Net) (peer : Text) (m : NetMessage) (s : Messenger) {t : Messenger}
    → (reliably_send_message net peer m s).0 ≡ ok tt
    → (r : Reach (commit (reliably_send_message net peer m s).1) t)
    → all_spare m.message_id r ≡ true
    → (is_some (find_row m.message_id t.committed) ≡ true)
      × ((before : List Attempt) × ((commit (reliably_send_message net peer m s).1).running
            ≡ before ++ record { peer = peer; message = m } ∷ []))
unfolding commit
Reach-Kept net peer m s done r e =
    let t = (reliably_send_message net peer m s).1 in
    let a = send-Accepted net peer m s done in
    let kept : is_some (find_row m.message_id t.rows) ≡ true =
      rw a.saved (
        rw (find-save m.message_id (new_row net peer m a.ser) s.rows, eq_refl m.message_id) refl) in
    (
      (all_spare-Kept m.message_id r e (kept, kept)).1,
      (s.running ++ s.hooks, rw (a.same, a.hooked) (sym (append_assoc s.running s.hooks _))),
    )
