-- ===== src/Validation/Identity.antt =====
-- orders/utils/validate.go: ValidateBuyerID.
use openbazaar.Prelude.{Bool, true, Option, some, ◌≡◌, ap, ◌∙◌, not, str_eq, eq_iff}
use openbazaar.Exec.{Result, ok, or_external, or_err, fail_if, validation_error}
use openbazaar.Exec.Results.{◌>>=◌, ◌>>◌}
use openbazaar.Exec.Invert.{search-ok, external-ok, fail_if-ok}
use openbazaar.Proto.Common.{Bytes, Text, Pubkeys, PbId}
use openbazaar.Validation.Valid.{passed, test_of}

-- libp2p's and btcec's keys; a key, a signature and a hash are bytes.
pub record Keys : Type 0 where
  -- crypto.UnmarshalPublicKey, and Verify of such a key
  pub identity_key : Bytes → Option Bytes
  pub verify : Bytes → Bytes → Bytes → Option Bool
  -- peer.IDFromPublicKey of such a key, printed
  pub peer_id_of : Bytes → Option Text
  -- btcec.ParsePubKey, ParseSignature, and Verify of a signature for a hash and a key
  pub escrow_key : Bytes → Option Bytes
  pub parse_signature : Bytes → Option Bytes
  pub verify_hash : Bytes → Bytes → Bytes → Bool
  -- sha256.Sum256 of bytes and of the bytes of a text
  pub sum : Bytes → Bytes
  pub sum_text : Text → Bytes

-- ValidateBuyerID
unfoldable pub validate_buyer_id : Keys → PbId → Result (Unit {0})
validate_buyer_id c id = do
  pubkeys ← or_err validation_error id.pubkeys
  identity ← or_external (c.identity_key (Pubkeys.identity pubkeys))
  pid ← or_external (c.peer_id_of identity)
  fail_if (not (str_eq pid id.peer_id)) validation_error
  escrow ← or_err validation_error (c.escrow_key (Pubkeys.escrow pubkeys))
  sig ← or_err validation_error (c.parse_signature id.sig)
  fail_if (not (c.verify_hash sig (c.sum_text id.peer_id) escrow)) validation_error

-- An identity whose peer ID belongs to its identity key and is signed by its escrow key.
pub record IsGenuine (c : Keys) (id : PbId) : Type 0 where
  pub pubkeys : Pubkeys
  pub identity : Bytes
  pub escrow : Bytes
  pub signature : Bytes
  pub has_pubkeys : id.pubkeys ≡ some pubkeys
  pub is_identity : c.identity_key pubkeys.identity ≡ some identity
  pub is_peer : c.peer_id_of identity ≡ some id.peer_id
  pub is_escrow : c.escrow_key pubkeys.escrow ≡ some escrow
  pub is_signature : c.parse_signature id.sig ≡ some signature
  pub signed : c.verify_hash signature (c.sum_text id.peer_id) escrow ≡ true

pub validate_buyer_id-IsGenuine :
    (c : Keys) (id : PbId) → validate_buyer_id c id ≡ ok tt → IsGenuine c id
unfolding validate_buyer_id
validate_buyer_id-IsGenuine c id done =
    let (pubkeys, hp, k) = search-ok validation_error id.pubkeys _ done in
    let (identity, hi, k1) = external-ok (c.identity_key pubkeys.identity) _ k in
    let (pid, hd, k2) = external-ok (c.peer_id_of identity) _ k1 in
    let (same, k3) = fail_if-ok (not (str_eq pid id.peer_id)) _ _ k2 in
    let (escrow, he, k4) = search-ok validation_error (c.escrow_key pubkeys.escrow) _ k3 in
    let (sig, hs, k5) = search-ok validation_error (c.parse_signature id.sig) _ k4 in
    record {
      pubkeys = pubkeys;
      identity = identity;
      escrow = escrow;
      signature = sig;
      has_pubkeys = hp;
      is_identity = hi;
      is_peer =
          hd ∙ ap {B = Option Text} (λ t. some t) ((eq_iff pid id.peer_id).0 (test_of _ same));
      is_escrow = he;
      is_signature = hs;
      signed = passed _ k5;
    }
