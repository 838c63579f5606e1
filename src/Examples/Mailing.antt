-- ===== src/Examples/Mailing.antt =====
-- The theorems about encrypted messages and the servers that hold them, at concrete inputs.
use openbazaar.Prelude.{
  ℕ, zero, suc, true, false, Option, none, some, List, [], ◌∷◌, ◌++◌, map, ◌≡◌, refl, sym, ap,
  subst, ◌∙◌, length, if◌then◌else◌, All, ℕ_discrete, bytes_eq,
}
use openbazaar.Prelude.Sort.{IsSortedBy}
use mathlib.Core.List.{Perm}
use openbazaar.Exec.{Result, ok, panic, external}
use openbazaar.Proto.Common.{Bytes, Text}
use openbazaar.Proto.Net.{NetMessage}
use openbazaar.Messenger.Encryption.{
  Box, IsBox, encrypt_curve25519, decrypt_curve25519, decrypt-encrypt,
}
use openbazaar.Messenger.Envelope.{
  Envelope, Keys, prep_encrypted_message, open_envelope, decrypt_message, Trusts,
}
use openbazaar.Messenger.Sealed.{IsSigned, decrypt_message-prep, decrypt_message-IsSigned}
use openbazaar.Messenger.Servers.{StoreAndForwardServers, PeerCodec, decode_peers, servers}
use openbazaar.Messenger.Deliver.{Mail, Push, pushes, servers_of, send_offline, try_send_message}
use openbazaar.Messenger.Arrival.{IsReadable, try_send_message-IsReadable}
use openbazaar.Messenger.Download.{
  EncryptedMessage, MessageWithPeer, sequence_of, Handlers, download_messages,
}
use openbazaar.Messenger.Received.{
  opened, skipped, nothing, Handled, NeverPanics, download_messages-Handled,
}
use openbazaar.Examples.Toy.{text_discrete, write_one, write_one_lem}
use openbazaar.Examples.Messaging.{hello}

abbrev zeros : ℕ → Bytes
zeros zero = []
zeros (suc n) = 0 ∷ zeros n

-- A box without a lock.
abbrev box : Box
box = record {
  public_curve = λ b. some b;
  private_curve = λ b. b;
  generate_key = some (zeros 32, []);
  nonce = some (zeros 24);
  seal = λ p n k s. p;
  open_box = λ c n k s. some c;
}

opens_all : (public : Bytes) → IsBox box public (2 ∷ [])
opens_all public = record {
  opens = λ p n pk e s hp hk. refl;
  nonce_length = λ n h. ap {B = ℕ} length (n_of n h);
  key_length = λ e s h. ap {B = ℕ} length (e_of e s h);
}
  where
    n_of : (n : Bytes) → box.nonce ≡ some n → n ≡ zeros 24
    n_of n h = cc

    e_of : (e s : Bytes) → box.generate_key ≡ some (e, s) → e ≡ zeros 32
    e_of e s h = cc

decrypt-encrypt_example :
    decrypt_curve25519 box (2 ∷ []) (zeros 24 ++ (zeros 32 ++ 9 ∷ [])) ≡ ok (9 ∷ [])
unfolding encrypt_curve25519
decrypt-encrypt_example =
    decrypt-encrypt box (1 ∷ []) (2 ∷ []) (opens_all (1 ∷ [])) (9 ∷ [])
      (zeros 24 ++ (zeros 32 ++ 9 ∷ [])) refl

-- What the box makes of the document 5.
abbrev cipher : Bytes
cipher = zeros 24 ++ (zeros 32 ++ 5 ∷ [])

-- The one envelope that is written; its signature is empty.
abbrev sealed : Envelope
sealed = record { sender_pubkey = 1 ∷ []; message = some hello; signature = [] }

unfoldable envelope_discrete : Discrete Envelope
unfolding text_discrete ℕ_discrete
envelope_discrete = hlevel (ℕ_discrete, text_discrete)

abbrev read_one : Bytes → Option Envelope
read_one b = if bytes_eq b (5 ∷ []) then some sealed else none

abbrev keys : Keys
keys = record {
  our_public = some (1 ∷ []);
  sign = λ b. some [];
  extract_public_key = λ t. some (3 ∷ []);
  unmarshal_public_key = λ b. some b;
  verify = λ k ser sig. some true;
  id_from_public_key = λ k. some "alice";
  marshal_envelope = write_one envelope_discrete sealed (5 ∷ []);
  unmarshal_envelope = read_one;
  box = box;
  private_key = 2 ∷ [];
}

keys-Trusts : Trusts keys keys (3 ∷ []) "alice"
keys-Trusts = record {
  is_box = opens_all (3 ∷ []);
  same_box = refl;
  reads = λ env b h.
      let (e, f) = write_one_lem envelope_discrete sealed env (5 ∷ []) b h in
      subst (λ d. read_one d ≡ some env) f (ap {B = Option Envelope} (λ x. some x) (sym e));
  writes = λ env. refl;
  own_key = 1 ∷ [];
  unmarshals = λ b h. sym h;
  verifies = λ ser sig h. refl;
  identifies = refl;
}

decrypt_message-prep_example : decrypt_message keys cipher ≡ ok ("alice", some hello)
unfolding prep_encrypted_message encrypt_curve25519 write_one envelope_discrete text_discrete
    ℕ_discrete
decrypt_message-prep_example =
    decrypt_message-prep keys keys "bob" "alice" (3 ∷ []) hello cipher keys-Trusts refl refl

decrypt_message-IsSigned_example : IsSigned keys "alice" (some hello)
unfolding decrypt_message decrypt_curve25519 open_envelope write_one envelope_discrete text_discrete
    ℕ_discrete
decrypt_message-IsSigned_example = decrypt_message-IsSigned keys cipher "alice" (some hello) refl

unfoldable texts_discrete : Discrete (List Text)
unfolding text_discrete
texts_discrete = hlevel text_discrete

abbrev codec : PeerCodec
codec = record {
  to_json = write_one texts_discrete ("s1" ∷ []) (6 ∷ []);
  from_json = λ b. some ("s1" ∷ []);
  decode = λ t. some t;
}

abbrev unset : StoreAndForwardServers
unset = record { peer_id = "bob"; snf_servers = none; last_updated = 0 }

abbrev set : StoreAndForwardServers
set = record unset { snf_servers = some (6 ∷ []) }

abbrev mail : Mail
mail = record {
  now = 1;
  keys = keys;
  codec = codec;
  direct = λ p m. false;
  has_client = true;
  stored = λ p. some set;
  get_profile = none;
}

abbrev pushed : List Push
pushed = record { recipient = "bob"; server = "s1"; ciphertext = cipher } ∷ []

try_send_message-IsReadable_example : All (IsReadable keys "alice" "bob" hello) pushed
unfolding try_send_message send_offline servers_of servers decode_peers pushes
    prep_encrypted_message write_one envelope_discrete text_discrete ℕ_discrete
try_send_message-IsReadable_example =
    try_send_message-IsReadable mail keys "alice" "bob" (3 ∷ []) hello pushed keys-Trusts refl refl

-- Two messages that are held for the node, of which one cannot be read.
abbrev held : List EncryptedMessage
held =
    record { message_id = 1 ∷ []; encrypted_message = zeros 24 ++ (zeros 32 ++ 8 ∷ []) }
    ∷ record { message_id = 2 ∷ []; encrypted_message = cipher }
    ∷ []

-- Each handler counts.
abbrev counts : Handlers ℕ
counts t = some (λ p m n. (ok tt, suc n))

abbrev result_of :
    Text
    → NetMessage
    → ℕ
    → Option (Text → NetMessage → ℕ → Result (Unit {0}) × ℕ)
    → Result (Unit {0})
result_of p m s none = ok tt
result_of p m s (some f) = (f p m s).0

counts-NeverPanics : NeverPanics counts
counts-NeverPanics n f e p m s h =
    let k : ok tt ≡ panic = ap {B = Result (Unit {0})} (result_of p m s) e ∙ h in cc

download_messages-Handled_example :
    (batch : List MessageWithPeer) × (t : ℕ) × IsSortedBy sequence_of batch
    × Perm batch (record { m = hello; p = "alice" } ∷ [])
    × Handled counts batch 0 t
    × (download_messages keys counts (some (some held)) (0, [])
        ≡ (ok tt, (t, [] ++ map (λ enc. enc.message_id) held)))
unfolding decrypt_message decrypt_curve25519 open_envelope write_one envelope_discrete text_discrete
    ℕ_discrete
download_messages-Handled_example =
    download_messages-Handled counts keys held (record { m = hello; p = "alice" } ∷ []) 0 []
      counts-NeverPanics (skipped {e = external} refl (opened refl nothing))
