-- ===== src/Messenger/Received.antt =====
-- net/messenger.go: what downloadMessages does with the messages it got.
use openbazaar.Prelude.{
  none, some, List, [], ◌∷◌, ◌++◌, map, ap, ◌≡◌, ◌≢◌, refl, Option-cases, inl, inr,
}
use openbazaar.Prelude.Sort.{sort_by, IsSortedBy, sort_by_lem}
use mathlib.Core.List.{Perm}
use openbazaar.Exec.{Error, Result, ok, err, panic, Exec, lift, ◌>>=◌, ◌>>◌}
use openbazaar.Proto.Common.{Bytes, Text}
use openbazaar.Proto.Net.{NetMessage, NetType}
use openbazaar.Messenger.Envelope.{Keys, decrypt_message}
use openbazaar.Messenger.Download.{
  EncryptedMessage, MessageWithPeer, sequence_of, decrypt_all, Handlers, logged, handle, handle_all,
  ack_all, handle_and_ack, download_messages,
}

-- What was received, without what the decryption refuses with an error; no decryption panics, as it does
-- for a ciphertext of less than 56 bytes.
pub data Opens (keys : Keys) : List EncryptedMessage → List MessageWithPeer → Type 0 where
  nothing : Opens keys [] []
  skipped :
      {enc : EncryptedMessage} {e : Error} {rest : List EncryptedMessage}
      {ms : List MessageWithPeer}
      → decrypt_message keys enc.encrypted_message ≡ err e
      → Opens keys rest ms
      → Opens keys (enc ∷ rest) ms
  opened :
      {enc : EncryptedMessage} {x : MessageWithPeer} {rest : List EncryptedMessage}
      {ms : List MessageWithPeer}
      → decrypt_message keys enc.encrypted_message ≡ ok (x.p, some x.m)
      → Opens keys rest ms
      → Opens keys (enc ∷ rest) (x ∷ ms)

decrypt_all-Opens :
    {keys : Keys} {msgs : List EncryptedMessage} {ms : List MessageWithPeer}
    → Opens keys msgs ms
    → decrypt_all keys msgs ≡ ok ms
unfolding decrypt_all
decrypt_all-Opens nothing = refl
decrypt_all-Opens (skipped e o) = rw (decrypt_all, e) (decrypt_all-Opens o)
decrypt_all-Opens (opened e o) = rw (decrypt_all, e, decrypt_all-Opens o) refl

module _ {S : Type 0} (handlers : Handlers S) where
  -- The messages go one after the other to the handlers of their types; a handler that returns an
  -- error keeps what it has written.
  pub data Handled : List MessageWithPeer → S → S → Type 0 where
    all_handled : {s : S} → Handled [] s s
    no_handler :
        {x : MessageWithPeer} {xs : List MessageWithPeer} {s t : S}
        → handlers x.m.net_type ≡ none
        → Handled xs s t
        → Handled (x ∷ xs) s t
    handled :
        {x : MessageWithPeer} {xs : List MessageWithPeer} {s t u : S}
        (f : Text → NetMessage → Exec S (Unit {0})) (r : Result (Unit {0}))
        → handlers x.m.net_type ≡ some f
        → f x.p x.m s ≡ (r, t)
        → Handled xs t u
        → Handled (x ∷ xs) s u

  abbrev pub NeverPanics : Type 0
  NeverPanics =
      (n : NetType) (f : Text → NetMessage → Exec S (Unit {0}))
      → handlers n ≡ some f
      → (p : Text) (m : NetMessage) (s : S) → (f p m s).0 ≢ panic

  Result-logged : (r : Result (Unit {0}) × S) → r.0 ≢ panic → logged r ≡ (ok tt, r.1)
  Result-logged (ok u, s) h = refl
  Result-logged (err e, s) h = refl
  Result-logged (panic, s) h = absurd (h refl)

  handle_all-cons :
      (x : MessageWithPeer) (xs : List MessageWithPeer) (s : S) {t u : S}
      → handle handlers x s ≡ (ok tt, t)
      → handle_all handlers xs t ≡ (ok tt, u)
      → handle_all handlers (x ∷ xs) s ≡ (ok tt, u)
  unfolding handle_all ◌>>=◌
  handle_all-cons x xs s e f = rw (◌>>◌, ◌>>=◌, ap (λ q. q.0) e, ap (λ q. q.1) e) f

  handle_all-Handled :
      NeverPanics
      → (xs : List MessageWithPeer) (s : S)
      → (t : S) × (handle_all handlers xs s ≡ (ok tt, t)) × Handled xs s t
  unfolding handle_all handle
  handle_all-Handled calm [] s = (s, refl, all_handled)
  handle_all-Handled calm (x ∷ xs) s = elim (Option-cases (handlers x.m.net_type)) [
    | inl n ↦
        let (t, e, h) = handle_all-Handled calm xs s in
        (t, handle_all-cons x xs s (rw (handle, n) refl) e, no_handler n h)
    | inr (f, fe) ↦
        let (t, e, h) = handle_all-Handled calm xs (f x.p x.m s).1 in
        let l = Result-logged (f x.p x.m s) (calm x.m.net_type f fe x.p x.m s) in
        (t, handle_all-cons x xs s (rw (handle, fe) l) e, handled f (f x.p x.m s).0 fe refl h)
  ]

  -- What is downloaded is processed in order and acknowledged: where no handler panics, and every
  -- downloaded ciphertext either is decrypted to a message or is refused by the decryption with an error,
  -- so that no decryption panics, downloadMessages returns, the decrypted messages have gone to the
  -- handlers of their types, each once and in the order of their sequence numbers, and every downloaded
  -- message has been acknowledged, also one that is refused or has no handler.
  pub download_messages-Handled :
      (keys : Keys) (msgs : List EncryptedMessage) (ms : List MessageWithPeer) (s : S)
      (acked : List Bytes)
      → NeverPanics
      → Opens keys msgs ms
      → (batch : List MessageWithPeer) × (t : S) × IsSortedBy sequence_of batch
        × Perm batch ms
        × Handled batch s t
        × (download_messages keys handlers (some (some msgs)) (s, acked)
            ≡ (ok tt, (t, acked ++ map (λ enc. enc.message_id) msgs)))
  unfolding download_messages handle_and_ack ack_all ◌>>=◌
  download_messages-Handled keys msgs ms s acked calm o =
      let (sorted, perm) = sort_by_lem sequence_of ms in
      let (t, e, h) = handle_all-Handled calm (sort_by sequence_of ms) s in
      (
        sort_by sequence_of ms,
        t,
        sorted,
        perm,
        h,
        rw (decrypt_all-Opens o, lift, handle_and_ack, ap (λ q. q.0) e, ap (λ q. q.1) e) refl,
      )
