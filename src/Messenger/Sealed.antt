-- ===== src/Messenger/Sealed.antt =====
-- net/messenger.go: what decryptMessage makes of what prepEncryptedMessage wrote.
use openbazaar.Prelude.{true, Option, some, [], ◌≡◌, refl, ◌∙◌, subst, not, arith}
use openbazaar.Exec.{ok}
use openbazaar.Exec.Invert.{bind_result-ok, external-ok, fail_if-ok}
use openbazaar.Proto.Common.{Bytes, Text}
use openbazaar.Proto.Net.{NetMessage}
use openbazaar.Messenger.Encryption.{encrypt_curve25519, decrypt_curve25519, decrypt-encrypt}
use openbazaar.Messenger.Envelope.{
  Envelope, Keys, prep_encrypted_message, open_envelope, decrypt_message, Trusts, Prepared,
}

prep-Prepared :
    (us : Keys) (to : Text) (theirs : Bytes) (m : NetMessage) (c : Bytes)
    → us.extract_public_key to ≡ some theirs
    → prep_encrypted_message us to m ≡ ok c
    → Prepared us theirs m c
unfolding prep_encrypted_message
prep-Prepared us to theirs m c key done =
    let (t, h, k) = external-ok (us.extract_public_key to) _ done in
    let (ours, ho, k1) = external-ok us.our_public _ k in
    let env : Envelope = record { sender_pubkey = ours; message = some m; signature = [] } in
    let (ser, hser, k2) = external-ok (us.marshal_envelope env) _ k1 in
    let (sig, hsig, k3) = external-ok (us.sign ser) _ k2 in
    let (plaintext, hp, k4) =
      external-ok (us.marshal_envelope (record env { signature = sig })) _ k3 in
    record {
      ours = ours;
      ser = ser;
      sig = sig;
      plaintext = plaintext;
      has_public = ho;
      marshals = hser;
      signs = hsig;
      marshals_signed = hp;
      encrypts = subst (λ x. encrypt_curve25519 us.box x plaintext ≡ ok c) (cc) k4;
    }

Trusts-decrypts :
    (us them : Keys) (theirs : Bytes) (our_id : Text) (plaintext c : Bytes)
    → Trusts us them theirs our_id
    → encrypt_curve25519 us.box theirs plaintext ≡ ok c
    → decrypt_curve25519 them.box them.private_key c ≡ ok plaintext
Trusts-decrypts us them theirs our_id plaintext c trust done =
    subst (λ x. decrypt_curve25519 x them.private_key c ≡ ok plaintext) trust.same_box
      (decrypt-encrypt us.box theirs them.private_key trust.is_box plaintext c done)

-- What a sender writes for a receiver, the receiver reads: if prepEncryptedMessage returns without
-- error, decryptMessage returns the message and the sender's peer ID.
pub decrypt_message-prep :
    (us them : Keys) (to our_id : Text) (theirs : Bytes) (m : NetMessage) (c : Bytes)
    → Trusts us them theirs our_id
    → us.extract_public_key to ≡ some theirs
    → prep_encrypted_message us to m ≡ ok c
    → decrypt_message them c ≡ ok (our_id, some m)
unfolding decrypt_message
decrypt_message-prep us them to our_id theirs m c trust key done =
    let p = prep-Prepared us to theirs m c key done in
    rw (Trusts-decrypts us them theirs our_id p.plaintext c trust p.encrypts) (
      rw (trust.reads _ p.plaintext p.marshals_signed) (
        rw (trust.unmarshals p.ours p.has_public) (
          rw (trust.writes _ ∙ p.marshals)
            (rw (trust.verifies p.ser p.sig p.signs) (rw trust.identifies refl)))))

-- Why a message is believed to come from a peer.
pub record IsSigned (keys : Keys) (id : Text) (m : Option NetMessage) : Type 0 where
  pub env : Envelope
  pub sender : Bytes
  pub ser : Bytes
  pub carries : env.message ≡ m
  pub names : keys.unmarshal_public_key env.sender_pubkey ≡ some sender
  pub covers : keys.marshal_envelope (record env { signature = [] }) ≡ some ser
  pub verified : keys.verify sender ser env.signature ≡ some true
  pub is_id : keys.id_from_public_key sender ≡ some id

open_envelope-IsSigned :
    (keys : Keys) (env : Envelope) (id : Text) (m : Option NetMessage)
    → open_envelope keys env ≡ ok (id, m)
    → IsSigned keys id m
unfolding open_envelope
open_envelope-IsSigned keys env id m done =
    let (sender, hs, k) = external-ok (keys.unmarshal_public_key env.sender_pubkey) _ done in
    let (ser, hser, k1) = external-ok (keys.marshal_envelope (record env { signature = [] })) _ k in
    let (valid, hv, k2) = external-ok (keys.verify sender ser env.signature) _ k1 in
    let (good, k3) = fail_if-ok (not valid) _ _ k2 in
    let (i, hi, k4) = external-ok (keys.id_from_public_key sender) _ k3 in
    record {
      env = env;
      sender = sender;
      ser = ser;
      carries = cc;
      names = hs;
      covers = hser;
      verified = hv ∙ ground (arith, good);
      is_id = cc;
    }

-- A message that decryptMessage returns with a peer ID was signed: it stands in an envelope of which
-- the signature covers all but itself, and verifies under the public key that the envelope names and
-- that has that peer ID.
pub decrypt_message-IsSigned :
    (keys : Keys) (c : Bytes) (id : Text) (m : Option NetMessage)
    → decrypt_message keys c ≡ ok (id, m)
    → IsSigned keys id m
unfolding decrypt_message
decrypt_message-IsSigned keys c id m done =
    let (plaintext, _, k) =
      bind_result-ok (decrypt_curve25519 keys.box keys.private_key c) _ done in
    let (env, _, k1) = external-ok (keys.unmarshal_envelope plaintext) _ k in
    open_envelope-IsSigned keys env id m k1
