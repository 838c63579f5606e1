-- ===== src/Messenger/Arrival.antt =====
-- net/messenger.go: what trySendMessage pushes to servers, and for whom it can be read.
use openbazaar.Prelude.{some, List, [], ◌∷◌, ◌≡◌, refl, subst, Bool-cases, inl, inr}
use openbazaar.Prelude.{All}
use openbazaar.Exec.{ok}
use openbazaar.Exec.Invert.{bind_result-ok}
use openbazaar.Proto.Common.{Bytes, Text}
use openbazaar.Proto.Net.{NetMessage}
use openbazaar.Messenger.Envelope.{Keys, prep_encrypted_message, decrypt_message, Trusts}
use openbazaar.Messenger.Sealed.{decrypt_message-prep}
use openbazaar.Messenger.Deliver.{Mail, Push, pushes, servers_of, send_offline, try_send_message}

-- The receiver, who is `peer`, reads the message from what was pushed, and whom it comes from.
pub IsReadable : Keys → Text → Text → NetMessage → Push → Type 0
IsReadable them our_id peer m p =
    (p.recipient ≡ peer) × (decrypt_message them p.ciphertext ≡ ok (our_id, some m))

pushes-IsReadable :
    (them : Keys) (our_id peer : Text) (m : NetMessage) (c : Bytes) (ss : List Text)
    → decrypt_message them c ≡ ok (our_id, some m)
    → All (IsReadable them our_id peer m) (pushes peer c ss)
unfolding pushes IsReadable
pushes-IsReadable them our_id peer m c [] h = tt
pushes-IsReadable them our_id peer m c (s ∷ ss) h =
    ((refl, h), pushes-IsReadable them our_id peer m c ss h)

-- A message that is sent over servers arrives: each ciphertext that trySendMessage pushes is for the
-- recipient, who decrypts it to the message and the sender's peer ID.
pub try_send_message-IsReadable :
    (mail : Mail) (them : Keys) (our_id peer : Text) (theirs : Bytes) (m : NetMessage)
    (ps : List Push)
    → Trusts mail.keys them theirs our_id
    → mail.keys.extract_public_key peer ≡ some theirs
    → try_send_message mail peer m ≡ ok ps
    → All (IsReadable them our_id peer m) ps
unfolding try_send_message send_offline
try_send_message-IsReadable mail them our_id peer theirs m ps trust key done =
    elim (Bool-cases (mail.direct peer m)) [
      | inl d ↦ nothing (rw d at done)
      | inr d ↦ elim (Bool-cases mail.has_client) [
        | inr n ↦ nothing (rw (d, n) at done)
        | inl c ↦
            let (ss, _, k) = bind_result-ok (servers_of mail peer) _ (rw (d, c) at done) in
            let (b, hb, k1) = bind_result-ok (prep_encrypted_message mail.keys peer m) _ k in
            let e : pushes peer b ss ≡ ps = cc in
            subst (λ l. All (IsReadable them our_id peer m) l) e
              (pushes-IsReadable them our_id peer m b ss
                (decrypt_message-prep mail.keys them peer our_id theirs m b trust key hb))
      ]
    ]
  where
    nothing : ok [] ≡ ok ps → All (IsReadable them our_id peer m) ps
    nothing h = let e : [] ≡ ps = cc in subst (λ l. All (IsReadable them our_id peer m) l) e tt
