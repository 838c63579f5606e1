-- ===== src/Messenger/Download.antt =====
-- net/messenger.go: downloadMessages.
use openbazaar.Prelude.{ℕ, Option, none, some, List, [], ◌∷◌, ◌++◌, map}
use openbazaar.Prelude.Sort.{sort_by}
use openbazaar.Exec.{Result, ok, err, panic, Exec, pure, lift, or_panic, bind_result, ◌>>=◌, ◌>>◌}
use openbazaar.Proto.Common.{Bytes, Text}
use openbazaar.Proto.Net.{NetMessage, NetType}
use openbazaar.Messenger.Envelope.{Keys, decrypt_message}

-- What a store-and-forward server holds for the node.
pub record EncryptedMessage : Type 0 where
  pub message_id : Bytes
  pub encrypted_message : Bytes

-- messageWithPeer
pub record MessageWithPeer : Type 0 where
  pub m : NetMessage
  pub p : Text

abbrev pub sequence_of : MessageWithPeer → ℕ
sequence_of x = x.m.sequence

-- The messages that can be decrypted. One that is signed but carries no message is a nil pointer, which
-- the sort or else the loop of the handlers follows before any handler is called.
unfoldable pub decrypt_all : Keys → List EncryptedMessage → Result (List MessageWithPeer)
unfolding decrypt_message
decrypt_all keys [] = ok []
decrypt_all keys (enc ∷ rest) =
    let ms = decrypt_all keys rest in
    elim (decrypt_message keys enc.encrypted_message) [
      | ok (p, m) ↦
          bind_result (or_panic m) λ n. bind_result ms λ ns. ok (record { m = n; p = p } ∷ ns)
      | err e ↦ ms
      | panic ↦ panic
    ]

-- NetworkService.handlers
abbrev pub Handlers : Type 0 → Type 0
Handlers S = NetType → Option (Text → NetMessage → Exec S (Unit {0}))

module _ {S : Type 0} where
  -- An error of a handler is logged.
  abbrev pub logged : Result (Unit {0}) × S → Result (Unit {0}) × S
  logged (ok u, s) = (ok tt, s)
  logged (err e, s) = (ok tt, s)
  logged (panic, s) = (panic, s)

  unfoldable pub handle : Handlers S → MessageWithPeer → Exec S (Unit {0})
  handle handlers x s = elim (handlers x.m.net_type) [
    | none ↦ (ok tt, s)
    | some handler ↦ logged (handler x.p x.m s)
  ]

  unfoldable pub handle_all : Handlers S → List MessageWithPeer → Exec S (Unit {0})
  unfolding handle ◌>>=◌
  handle_all handlers [] s = (ok tt, s)
  handle_all handlers (x ∷ xs) s = (handle handlers x >> handle_all handlers xs) s

  -- The handlers' state, and the IDs for which AckMessage was called.
  unfoldable pub ack_all : List EncryptedMessage → Exec (S × List Bytes) (Unit {0})
  ack_all msgs (s, acked) = (ok tt, (s, acked ++ map (λ enc. enc.message_id) msgs))

  unfoldable pub handle_and_ack :
      Handlers S → List MessageWithPeer → List EncryptedMessage → Exec (S × List Bytes) (Unit {0})
  unfolding handle_all ack_all
  handle_and_ack handlers ms msgs (s, acked) =
      let (r, t) = handle_all handlers (sort_by sequence_of ms) s in
      elim r [
        | ok u ↦ ack_all msgs (t, acked)
        | err e ↦ (err e, (t, acked))
        | panic ↦ (panic, (t, acked))
      ]

  -- downloadMessages; the client, if there is one, may fail to get the messages.
  unfoldable pub download_messages :
      Keys → Handlers S → Option (Option (List EncryptedMessage)) → Exec (S × List Bytes) (Unit {0})
  unfolding decrypt_all handle_and_ack ◌>>=◌
  download_messages keys handlers none = pure tt
  download_messages keys handlers (some none) = pure tt
  download_messages keys handlers (some (some msgs)) =
      lift (decrypt_all keys msgs) >>= λ ms. handle_and_ack handlers ms msgs
