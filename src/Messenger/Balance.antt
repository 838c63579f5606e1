-- ===== src/Messenger/Balance.antt =====
-- net/messenger.go: the WaitGroup, which Stop waits for.
use openbazaar.Prelude.{
  inl, inr, ◌⊎◌, ℕ, ◌+◌, ◌≤◌, ◌<◌, Option, none, some, List, [], ◌∷◌, ◌++◌, ◌≡◌, refl, ap, length,
  length-append, arith, Option-cases,
}
use openbazaar.Proto.Common.{Bytes, Text}
use openbazaar.Proto.Net.{NetMessage}
use openbazaar.Messenger.Defs.{OutgoingMessage, Attempt, Net, Messenger}
use openbazaar.Messenger.Send.{
  ack_attempt, add_one, save_and_send, reliably_send_message, process_ack, send_ack, due, retry_row,
  retry_rows, retry_all_messages, finish, commit, roll_back,
}
use openbazaar.Messenger.Steps.{
  Step, sends, is_acked, acks, retries, finishes, commits, rolls_back, Reach, here, next,
}

-- How many calls of Done are still to come: those of the goroutines, and of the hooks that will start
-- one.
abbrev pub pending : Messenger → ℕ
pending s = length s.running + length s.hooks

-- The counter exceeds the calls of Done by at least `k`.
abbrev pub Exceeds : ℕ → Messenger → Type 0
Exceeds k s = pending s + k ≤ s.waiting

save-Exceeds :
    (k : ℕ) (net : Net) (peer : Text) (m : NetMessage) (ser : Bytes) (s : Messenger)
    → pending s + k + 1 ≤ s.waiting
    → Exceeds k (save_and_send net peer m ser s).1
unfolding save_and_send
save-Exceeds k net peer m ser s h =
    ground (arith, length-append s.hooks (record { peer = peer; message = m } ∷ []))

retry_row-Exceeds :
    (k : ℕ) (net : Net) (row : OutgoingMessage) (a : Option Attempt) (s : Messenger)
    → Exceeds k s
    → Exceeds k (retry_row net row a s)
unfolding retry_row
retry_row-Exceeds k net row none s h = h
retry_row-Exceeds k net row (some a) s h = omega (arith, length-append {0} s.running (a ∷ []))

retry_rows-Exceeds :
    (k : ℕ) (net : Net) (rows : List OutgoingMessage) (s : Messenger)
    → Exceeds k s
    → Exceeds k (retry_rows net rows s)
unfolding retry_rows
retry_rows-Exceeds k net [] s h = h
retry_rows-Exceeds k net (row ∷ rest) s h =
    retry_rows-Exceeds k net rest _ (retry_row-Exceeds k net row (due net row) s h)

send-Exceeds :
    (k : ℕ) (net : Net) (peer : Text) (m : NetMessage) (s : Messenger)
    → Exceeds k s
    → Exceeds k (reliably_send_message net peer m s).1
unfolding reliably_send_message
send-Exceeds k net peer m s h = elim (Option-cases (net.marshal m)) [
  | inl e ↦ rw (e, reliably_send_message) (omega arith)
  | inr (ser, e) ↦
      rw (e, reliably_send_message) (save-Exceeds k net peer m ser (add_one s) (omega arith))
]

ack-Exceeds :
    (k : ℕ) (net : Net) (id peer : Text) (s : Messenger)
    → Exceeds k s
    → Exceeds k (send_ack net id peer s)
unfolding send_ack
ack-Exceeds k net id peer s h = elim (Option-cases (net.marshal_ack id)) [
  | inl e ↦ rw (e, send_ack) (omega arith)
  | inr (payload, e) ↦
      rw (e, send_ack)
        (omega (arith, length-append {0} s.running (ack_attempt net peer payload ∷ [])))
]

retry-Exceeds :
    (k : ℕ) (net : Net) (s : Messenger) → Exceeds k s → Exceeds k (retry_all_messages net s)
unfolding retry_all_messages
retry-Exceeds k net s h = ground (arith, retry_rows-Exceeds (k + 1) net s.committed (add_one s))

length-middle :
    (before after : List Attempt) (a : Attempt)
    → length (before ++ a ∷ after) ≡ length (before ++ after) + 1
length-middle before after a =
    omega (arith, length-append {0} before (a ∷ after), length-append {0} before after)

Step-Exceeds : (k : ℕ) {s t : Messenger} → Step s t → Exceeds k s → Exceeds k t
unfolding process_ack finish commit roll_back
Step-Exceeds k (sends net peer m s) h = send-Exceeds k net peer m s h
Step-Exceeds k (is_acked net id s) h = ground arith
Step-Exceeds k (acks net id peer s) h = ack-Exceeds k net id peer s h
Step-Exceeds k (retries net s) h = retry-Exceeds k net s h
Step-Exceeds k (finishes s before after a e) h =
    omega (arith, ap length e, length-middle before after a)
Step-Exceeds k (commits s) h = omega (arith, length-append {0} s.running s.hooks)
Step-Exceeds k (rolls_back s) h = omega arith

Reach-Exceeds : (k : ℕ) {s t : Messenger} → Exceeds k s → Reach s t → Exceeds k t
Reach-Exceeds k h here = h
Reach-Exceeds k h (next r st) = Step-Exceeds k st (Reach-Exceeds k h r)

-- A Messenger that has just been created.
abbrev pub new_messenger : List OutgoingMessage → Messenger
new_messenger rows = record { rows = rows; committed = rows; hooks = []; running = []; waiting = 0 }

empty_or_waiting : (l k : List Attempt) (n : ℕ) → length l + length k ≤ n → (l ≡ []) ⊎ (0 < n)
empty_or_waiting [] k n h = inl refl
empty_or_waiting (a ∷ l) k n h = inr (omega (arith, h))

-- In every state that a new Messenger reaches by any calls in any order, the counter of the WaitGroup
-- is at least the number of goroutines that send and of hooks that will start one. So it never falls
-- below zero, and when Stop sees it at zero no goroutine is sending.
pub Reach-covers :
    (rows : List OutgoingMessage) {s : Messenger}
    → Reach (new_messenger rows) s
    → (length s.running + length s.hooks ≤ s.waiting) × ((s.running ≡ []) ⊎ (0 < s.waiting))
Reach-covers rows {s} r =
    let h = Reach-Exceeds 0 (omega arith) r in
    (omega (arith, h), empty_or_waiting s.running s.hooks s.waiting (omega (arith, h)))

-- The calls that raise the counter and start nothing, or that drop what would have started.
pub data Leaks : Messenger → Messenger → Type 0 where
  too_large :
      (net : Net) (peer : Text) (m : NetMessage) (ser : Bytes) (s : Messenger)
      → net.marshal m ≡ some ser
      → net.message_size_max < length ser
      → Leaks s (reliably_send_message net peer m s).1
  no_ack :
      (net : Net) (id peer : Text) (s : Messenger)
      → net.marshal_ack id ≡ none
      → Leaks s (send_ack net id peer s)
  rolled_back : (s : Messenger) → 0 < length s.hooks → Leaks s (roll_back s)

too_large-Exceeds :
    (net : Net) (peer : Text) (m : NetMessage) (ser : Bytes) (s : Messenger)
    → net.message_size_max < length ser
    → Exceeds 0 s
    → Exceeds 1 (save_and_send net peer m ser (add_one s)).1
unfolding save_and_send
too_large-Exceeds net peer m ser s large h = ground arith

Leaks-Exceeds : {s t : Messenger} → Leaks s t → Exceeds 0 s → Exceeds 1 t
unfolding reliably_send_message send_ack roll_back
Leaks-Exceeds (too_large net peer m ser s e large) h =
    rw (e, reliably_send_message) (too_large-Exceeds net peer m ser s large h)
Leaks-Exceeds (no_ack net id peer s e) h = rw (e, send_ack) (omega arith)
Leaks-Exceeds (rolled_back s some_hook) h = omega arith

-- Once a message that is too large was sent, an ACK could not be marshalled, or a transaction in which
-- a message was sent was rolled back, Stop waits for ever: in no state that any calls reach from there
-- is the counter of the WaitGroup zero.
pub Reach-Leaks :
    (rows : List OutgoingMessage) {s t u : Messenger}
    → Reach (new_messenger rows) s
    → Leaks s t
    → Reach t u
    → 0 < u.waiting
Reach-Leaks rows r l r' =
    omega (arith, Reach-Exceeds 1 (Leaks-Exceeds l (Reach-Exceeds 0 (omega arith) r)) r')
