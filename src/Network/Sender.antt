-- ===== src/Network/Sender.antt =====
-- net/message_sender.go: prep and sendMessage.
use openbazaar.Prelude.{
  ℕ, zero, suc, ◌+◌, ◌≤◌, Bool, true, false, Option, none, some, List, [], ◌∷◌, ◌++◌, ◌≡◌, ◌⊎◌, ltb,
  if◌then◌else◌,
}
use openbazaar.Exec.{Error, Result, ok, err, panic, external, not_found}
use openbazaar.Proto.Net.{NetMessage}

-- messageSender: whether it has a stream, and the messages that reach its streams, in the end.
pub record MessageSender : Type 0 where
  pub has_stream : Bool
  pub single_mes : ℕ
  pub invalid : Bool
  pub sent : List NetMessage

-- What ctxWriteMsg returns: nothing, an error, or ErrContextDone.
pub data Written : Type 0 where
  written write_error context_done : Written

-- The network, in the first turn of the loop and, with `true`, in the second one. The goroutine that writes
-- goes on when the context is done, and a write may fail late: `lands` says whether a message of which the
-- write was not reported as done reaches the stream all the same.
pub record Host : Type 0 where
  pub new_stream : Bool → Bool
  pub write : Bool → Written
  pub lands : Bool → Bool

abbrev pub stream_reuse_tries : ℕ
stream_reuse_tries = 3

unfoldable pub prep : Bool → MessageSender → Result (Unit {0}) × MessageSender
prep can_open ms =
    if ms.invalid
    then (err external, ms)
    else if ms.has_stream
    then (ok tt, ms)
    else if can_open
    then (ok tt, record ms { has_stream = true })
    else (err external, ms)

-- The end of a turn in which the message has been written.
unfoldable pub after_write : Bool → NetMessage → MessageSender → MessageSender
after_write retry m ms =
    if ltb stream_reuse_tries ms.single_mes
    then record ms { has_stream = false; sent = ms.sent ++ m ∷ [] }
    else if retry
    then record ms { single_mes = ms.single_mes + 1; sent = ms.sent ++ m ∷ [] }
    else record ms { sent = ms.sent ++ m ∷ [] }

-- The stream is reset; the message may have reached it.
unfoldable pub after_failure : Bool → NetMessage → MessageSender → MessageSender
after_failure lands m ms = record ms {
  has_stream = false;
  sent = if lands then ms.sent ++ m ∷ [] else ms.sent;
}

-- A turn of the loop, with what the next turn would do.
unfoldable pub write_turn :
    Bool
    → NetMessage
    → Written
    → Bool
    → Option (Result (Unit {0}) × MessageSender)
    → MessageSender
    → Option (Result (Unit {0}) × MessageSender)
unfolding after_write after_failure
write_turn retry m written lands again ms = some (ok tt, after_write retry m ms)
write_turn retry m context_done lands again ms = some (err not_found, after_failure lands m ms)
write_turn true m write_error lands again ms = some (err external, after_failure lands m ms)
write_turn false m write_error lands again ms = again

-- The loop of sendMessage, on fuel; `none` where there is none left.
unfoldable pub send_turns :
    ℕ → Host → Bool → NetMessage → MessageSender → Option (Result (Unit {0}) × MessageSender)
unfolding prep write_turn after_failure
send_turns zero host retry m ms = none
send_turns (suc n) host retry m ms =
    let (r, t) = prep (host.new_stream retry) ms in
    let again = send_turns n host true m (after_failure (host.lands retry) m t) in
    elim r [
      | ok u ↦ write_turn retry m (host.write retry) (host.lands retry) again t
      | err e ↦ some (err e, t)
      | panic ↦ some (panic, t)
    ]

unfoldable pub send_message :
    Host → NetMessage → MessageSender → Option (Result (Unit {0}) × MessageSender)
unfolding send_turns
send_message host m ms = send_turns 2 host false m ms

abbrev pub copies : ℕ → NetMessage → List NetMessage
copies zero m = []
copies (suc n) m = m ∷ copies n m

abbrev pub one_if : Bool → ℕ
one_if true = 1
one_if false = 0

-- How some turns end: with no error, and one message reaches the streams for the write that is reported as
-- done and at most `extra` for writes that are not; or with an error, and at most `bad` reach them. The
-- counter stays in its bounds.
pub Ends :
    (bad extra : ℕ)
    → NetMessage
    → MessageSender
    → Option (Result (Unit {0}) × MessageSender)
    → Type 0
Ends bad extra m ms none = ⊥
Ends bad extra m ms (some (r, t)) =
    (((r ≡ ok tt) × ((l : ℕ) × (l ≤ extra) × (t.sent ≡ ms.sent ++ copies (suc l) m)))
      ⊎ ((e : Error) × (r ≡ err e) × ((l : ℕ) × (l ≤ bad) × (t.sent ≡ ms.sent ++ copies l m))))
    × (t.single_mes ≤ stream_reuse_tries + 1)

-- How a call ends: only a write that is not reported as done, and lands, is beyond what the result says.
abbrev pub IsEnded :
    Host → NetMessage → MessageSender → Option (Result (Unit {0}) × MessageSender) → Type 0
IsEnded host =
    Ends (one_if (host.lands false) + one_if (host.lands true)) (one_if (host.lands false))

module _ (host : Host) (m : NetMessage) where
  -- What a turn that is the last one, or is not, allows.
  abbrev bad_of : Bool → ℕ
  bad_of retry =
      if retry
      then one_if (host.lands true)
      else one_if (host.lands false) + one_if (host.lands true)

  abbrev extra_of : Bool → ℕ
  extra_of retry = if retry then 0 else one_if (host.lands false)
