-- ===== src/Messenger/Encryption.antt =====
-- net/encryption.go: Encrypt and Decrypt, on serialized messages.
use openbazaar.Prelude.{
  ℕ, ◌+◌, Option, some, ◌++◌, ◌≡◌, ltb, length, take, drop, take-append, drop-append, length-append,
  subst, Option-cases, inl, inr, if◌then◌else◌, arith,
}
use openbazaar.Exec.{Result, ok, panic, bind_result, or_external}
use openbazaar.Proto.Common.{Bytes}

-- The libraries: NaCl's box, the conversion of keys to curve25519, and random bytes. A public key is
-- `none` when it is not an ed25519 key; the private key is the node's own, which is one.
pub record Box : Type 0 where
  pub public_curve : Bytes → Option Bytes
  pub private_curve : Bytes → Bytes
  -- box.GenerateKey: the public and the private key
  pub generate_key : Option (Bytes × Bytes)
  pub nonce : Option Bytes
  pub seal : (plaintext nonce public private : Bytes) → Bytes
  pub open_box : (ciphertext nonce public private : Bytes) → Option Bytes

abbrev pub nonce_bytes : ℕ
nonce_bytes = 24

abbrev pub ephemeral_public_key_bytes : ℕ
ephemeral_public_key_bytes = 32

-- encryptCurve25519: the nonce, the ephemeral public key and the box
unfoldable pub encrypt_curve25519 : Box → Bytes → Bytes → Result Bytes
encrypt_curve25519 x raw plaintext =
    bind_result (or_external x.generate_key) λ (ephem_pub, ephem_priv).
      bind_result (or_external (x.public_curve raw)) λ pk.
        bind_result (or_external x.nonce)
          λ n. ok (n ++ (ephem_pub ++ x.seal plaintext n pk ephem_priv))

-- decryptCurve25519. The slices panic where the ciphertext is shorter than nonce and key.
unfoldable pub decrypt_curve25519 : Box → Bytes → Bytes → Result Bytes
decrypt_curve25519 x raw ciphertext =
    if ltb (length ciphertext) (nonce_bytes + ephemeral_public_key_bytes)
    then panic
    else or_external (
        x.open_box (drop ephemeral_public_key_bytes (drop nonce_bytes ciphertext))
          (take nonce_bytes ciphertext)
          (take ephemeral_public_key_bytes (drop nonce_bytes ciphertext)) (x.private_curve raw))

-- What NaCl documents: a box that is sealed for the public half of a key is opened with the private
-- half and the public half of the sealing key; and its keys and nonces have their lengths.
pub record IsBox (x : Box) (public private : Bytes) : Type 0 where
  pub opens :
      (plaintext n pk ephem_pub ephem_priv : Bytes)
      → x.public_curve public ≡ some pk
      → x.generate_key ≡ some (ephem_pub, ephem_priv)
      → x.open_box (x.seal plaintext n pk ephem_priv) n ephem_pub (x.private_curve private)
        ≡ some plaintext
  pub nonce_length : (n : Bytes) → x.nonce ≡ some n → length n ≡ nonce_bytes
  pub key_length :
      (ephem_pub ephem_priv : Bytes)
      → x.generate_key ≡ some (ephem_pub, ephem_priv)
      → length ephem_pub ≡ ephemeral_public_key_bytes

module _ (x : Box) (public private : Bytes) (law : IsBox x public private) where
  opened :
      (plaintext n ephem_pub ephem_priv pk : Bytes)
      → x.nonce ≡ some n
      → x.generate_key ≡ some (ephem_pub, ephem_priv)
      → x.public_curve public ≡ some pk
      → decrypt_curve25519 x private (n ++ (ephem_pub ++ x.seal plaintext n pk ephem_priv))
        ≡ ok plaintext
  unfolding decrypt_curve25519
  opened plaintext n e s pk hn hk hp =
      let ln = law.nonce_length n hn in
      let lk = law.key_length e s hk in
      let c = x.seal plaintext n pk s in
      rw (take-append 24 n (e ++ c) ln, drop-append 24 n (e ++ c) ln)
        (rw (take-append 32 e c lk, drop-append 32 e c lk)
          (rw (law.opens plaintext n pk e s hp hk)
            (ground (arith, length-append {0} n (e ++ c), length-append {0} e c))))

  -- What is encrypted for a public key is decrypted with its private key: if Encrypt returns a
  -- ciphertext without error, Decrypt returns the plaintext, and does not panic.
  pub decrypt-encrypt :
      (plaintext c : Bytes)
      → encrypt_curve25519 x public plaintext ≡ ok c
      → decrypt_curve25519 x private c ≡ ok plaintext
  unfolding encrypt_curve25519
  decrypt-encrypt plaintext c done = elim (Option-cases x.generate_key) [
    | inl e ↦ cc (rw e at done)
    | inr ((ephem_pub, ephem_priv), hk) ↦ elim (Option-cases (x.public_curve public)) [
      | inl e ↦ cc (rw (hk, e) at done)
      | inr (pk, hp) ↦ elim (Option-cases x.nonce) [
        | inl e ↦ cc (rw (hk, hp, e) at done)
        | inr (n, hn) ↦
            subst (λ d. decrypt_curve25519 x private d ≡ ok plaintext)
              (cc (rw (hk, hp, hn) at done)) (opened plaintext n ephem_pub ephem_priv pk hn hk hp)
      ]
    ]
  ]
