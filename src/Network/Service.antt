-- ===== src/Network/Service.antt =====
-- net/service.go: handleNewMessage.
use openbazaar.Prelude.{
  Bool, true, Option, none, some, List, [], ◌∷◌, ◌++◌, ap, ◌≡◌, refl, Option-cases, Bool-cases, inl,
  inr, if◌then◌else◌,
}
use openbazaar.Exec.{Result, ok, Exec, ◌>>=◌, ◌>>◌}
use openbazaar.Proto.Common.{Text}
use openbazaar.Proto.Net.{NetMessage}
use openbazaar.Messenger.Download.{Handlers, handle}
use openbazaar.Network.Bans.{BanManager, is_banned}

-- What a turn of the loop finds: whether the service has been closed, what is read from the stream,
-- where `none` is an error of ReadMsg or of proto.Unmarshal, and the ban manager after the read.
pub record Turn : Type 0 where
  pub is_done : Bool
  pub message : Option NetMessage
  pub bans : BanManager

module _ {S : Type 0} (pretty : Text → Text) (handlers : Handlers S) (peer : Text) where
  unfoldable pub handle_turn : Turn → Exec S (Unit {0}) → Exec S (Unit {0})
  unfolding handle is_banned ◌>>=◌
  handle_turn t rest = if t.is_done then (λ s. (ok tt, s)) else elim t.message [
    | none ↦ λ s. (ok tt, s)
    | some m ↦
        if is_banned pretty t.bans peer
        then (λ s. (ok tt, s))
        else (handle handlers (record { m = m; p = peer }) >> rest)
  ]

  -- The loop, which ends at the latest with what is read from the stream.
  unfoldable pub handle_turns : List Turn → Exec S (Unit {0})
  unfolding handle_turn
  handle_turns [] = λ s. (ok tt, s)
  handle_turns (t ∷ ts) = handle_turn t (handle_turns ts)

  unfoldable pub handle_new_message : BanManager → List Turn → Exec S (Unit {0})
  unfolding handle_turns is_banned
  handle_new_message bm ts = if is_banned pretty bm peer then (λ s. (ok tt, s)) else handle_turns ts

  turn-banned :
      (t : Turn) (rest : Exec S (Unit {0})) (s : S)
      → is_banned pretty t.bans peer ≡ true
      → handle_turn t rest s ≡ (ok tt, s)
  unfolding handle_turn
  turn-banned t rest s h = elim (Bool-cases t.is_done) [
    | inl e ↦ rw e refl
    | inr e ↦ elim (Option-cases t.message) [
      | inl n ↦ rw (e, n) refl
      | inr (m, n) ↦ rw (e, n, h) refl
    ]
  ]

  turn-cong :
      (t : Turn) (f g : Exec S (Unit {0}))
      → ((s : S) → f s ≡ g s)
      → (s : S) → handle_turn t f s ≡ handle_turn t g s
  turn-cong t f g h s = ap {B = Result (Unit {0}) × S} (λ k. handle_turn t k s) (λ i x. h x i)

  turns-banned :
      (before after : List Turn) (t : Turn) (s : S)
      → is_banned pretty t.bans peer ≡ true
      → handle_turns (before ++ t ∷ after) s ≡ handle_turns before s
  unfolding handle_turns
  turns-banned [] after t s h = turn-banned t (handle_turns after) s h
  turns-banned (x ∷ xs) after t s h =
      turn-cong x (handle_turns (xs ++ t ∷ after)) (handle_turns xs)
        (λ u. turns-banned xs after t u h) s

  -- A peer that is banned is not heard: from the first message that comes in while its peer is banned,
  -- handleNewMessage does what it does if the stream ends before that message; and nothing is handled
  -- of a peer that is banned when its stream is opened.
  pub handle_new_message-banned :
      (bm : BanManager) (before after : List Turn) (t : Turn) (s : S)
      → is_banned pretty t.bans peer ≡ true
      → (handle_new_message bm (before ++ t ∷ after) s ≡ handle_new_message bm before s)
        × (handle_new_message t.bans before s ≡ (ok tt, s))
  unfolding handle_new_message
  handle_new_message-banned bm before after t s h = (
    elim (Bool-cases (is_banned pretty bm peer)) [
      | inl e ↦ rw e refl
      | inr e ↦ rw e (turns-banned before after t s h)
    ],
    rw h refl,
  )
