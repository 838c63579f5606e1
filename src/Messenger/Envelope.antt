-- ===== src/Messenger/Envelope.antt =====
-- net/messenger.go: prepEncryptedMessage and decryptMessage.
use openbazaar.Prelude.{Bool, true, Option, some, [], ◌≡◌, not}
use openbazaar.Exec.{Result, ok, bind_result, or_external, fail_if, invalid_signature}
use openbazaar.Messenger.Encryption.{Box, IsBox, encrypt_curve25519, decrypt_curve25519}
use openbazaar.Proto.Common.{Bytes, Text}
use openbazaar.Proto.Net.{NetMessage}

-- net/pb/msg.proto: Envelope
pub record Envelope : Type 0 where
  pub sender_pubkey : Bytes
  pub message : Option NetMessage
  pub signature : Bytes

-- The node's key pair and the libraries.
pub record Keys : Type 0 where
  -- the bytes of the node's own public key, and PrivKey.Sign
  pub our_public : Option Bytes
  pub sign : Bytes → Option Bytes
  -- peer.ID.ExtractPublicKey, crypto.UnmarshalPublicKey, PubKey.Verify, peer.IDFromPublicKey
  pub extract_public_key : Text → Option Bytes
  pub unmarshal_public_key : Bytes → Option Bytes
  pub verify : Bytes → Bytes → Bytes → Option Bool
  pub id_from_public_key : Bytes → Option Text
  -- proto.Marshal and proto.Unmarshal of an Envelope
  pub marshal_envelope : Envelope → Option Bytes
  pub unmarshal_envelope : Bytes → Option Envelope
  -- the libraries of Encrypt and Decrypt, and the bytes of the node's own private key
  pub box : Box
  pub private_key : Bytes

-- Encrypt marshals the message first.
unfoldable pub prep_encrypted_message : Keys → Text → NetMessage → Result Bytes
unfolding encrypt_curve25519
prep_encrypted_message keys to message =
    bind_result (or_external (keys.extract_public_key to)) λ theirs.
      bind_result (or_external keys.our_public) λ ours.
        let env : Envelope = record {
          sender_pubkey = ours;
          message = some message;
          signature = [];
        } in
        bind_result (or_external (keys.marshal_envelope env)) λ ser.
          bind_result (or_external (keys.sign ser)) λ sig.
            bind_result (or_external (keys.marshal_envelope (record env { signature = sig })))
              λ plaintext. encrypt_curve25519 keys.box theirs plaintext

-- The checks of an envelope that has been decrypted.
unfoldable pub open_envelope : Keys → Envelope → Result (Text × Option NetMessage)
open_envelope keys env =
    bind_result (or_external (keys.unmarshal_public_key env.sender_pubkey)) λ sender.
      bind_result (or_external (keys.marshal_envelope (record env { signature = [] }))) λ ser.
        bind_result (or_external (keys.verify sender ser env.signature)) λ valid.
          bind_result (fail_if (not valid) invalid_signature) λ _.
            bind_result (or_external (keys.id_from_public_key sender)) λ id. ok (id, env.message)

unfoldable pub decrypt_message : Keys → Bytes → Result (Text × Option NetMessage)
unfolding open_envelope decrypt_curve25519
decrypt_message keys ciphertext =
    bind_result (decrypt_curve25519 keys.box keys.private_key ciphertext) λ plaintext.
      bind_result (or_external (keys.unmarshal_envelope plaintext)) λ env. open_envelope keys env

-- What a sender `us` and a receiver `them` rely on: they use the same box, which opens with the
-- receiver's keys what it sealed for them, an envelope is read as it was written, alike by both, and a signature of the sender's
-- verifies under the sender's public key, which has the sender's peer ID.
pub record Trusts (us them : Keys) (theirs : Bytes) (our_id : Text) : Type 0 where
  pub is_box : IsBox us.box theirs them.private_key
  pub same_box : us.box ≡ them.box
  pub reads :
      (env : Envelope) (b : Bytes)
      → us.marshal_envelope env ≡ some b
      → them.unmarshal_envelope b ≡ some env
  pub writes : (env : Envelope) → them.marshal_envelope env ≡ us.marshal_envelope env
  pub own_key : Bytes
  pub unmarshals : (b : Bytes) → us.our_public ≡ some b → them.unmarshal_public_key b ≡ some own_key
  pub verifies :
      (ser sig : Bytes) → us.sign ser ≡ some sig → them.verify own_key ser sig ≡ some true
  pub identifies : them.id_from_public_key own_key ≡ some our_id

-- How far prepEncryptedMessage came when it returned a ciphertext.
pub record Prepared (us : Keys) (theirs : Bytes) (message : NetMessage) (c : Bytes) : Type 0 where
  pub ours : Bytes
  pub ser : Bytes
  pub sig : Bytes
  pub plaintext : Bytes
  pub has_public : us.our_public ≡ some ours
  pub marshals :
      us.marshal_envelope (record { sender_pubkey = ours; message = some message; signature = [] })
      ≡ some ser
  pub signs : us.sign ser ≡ some sig
  pub marshals_signed :
      us.marshal_envelope (record { sender_pubkey = ours; message = some message; signature = sig })
      ≡ some plaintext
  pub encrypts : encrypt_curve25519 us.box theirs plaintext ≡ ok c
