-- ===== src/Validation/Rating.antt =====
-- orders/utils/validate.go: ValidateRating.
use openbazaar.Prelude.{
  ℕ, Bool, true, false, Option, none, some, ◌≡◌, ◌≤◌, ap, ◌⊎◌, inl, inr, ◌||◌, not, ltb, len,
  is_nil, refl, [], arith,
}
use openbazaar.Exec.{Result, ok, or_external, or_err, fail_if, validation_error}
use openbazaar.Exec.Results.{◌>>=◌, ◌>>◌}
use openbazaar.Exec.Invert.{bind_result-ok, search-ok, external-ok, fail_if-ok}
use openbazaar.Proto.Common.{Bytes, Text, Pubkeys, PbId}
use openbazaar.Proto.Orders.{RatingSignature}
use openbazaar.Validation.Identity.{Keys}
use openbazaar.Validation.Valid.{test_of, passed, fail_if-false}

-- Rating; the five marks are uint32.
pub record Rating : Type 0 where
  pub vendor_id : Option PbId
  pub vendor_sig : Option RatingSignature
  pub buyer_id : Option PbId
  pub buyer_sig : Bytes
  pub overall : ℕ
  pub quality : ℕ
  pub description : ℕ
  pub delivery_speed : ℕ
  pub customer_service : ℕ
  pub review : Text
  pub rating_signature : Bytes

-- proto.Marshal of the two messages, and MatchesPublicKey of the peer ID that peer.Decode reads.
pub record RatingLibs : Type 0 where
  pub keys : Keys
  pub marshal_signature : RatingSignature → Option Bytes
  pub marshal_rating : Rating → Option Bytes
  pub decode_peer : Text → Option Bytes
  pub matches : Bytes → Bytes → Bool

abbrev pub out_of_range : ℕ → Bool
out_of_range n = ltb n 1 || ltb 5 n

-- The peer ID of the message is that of the key.
unfoldable pub check_peer : RatingLibs → PbId → Bytes → Result (Unit {0})
check_peer c id key = do
  pid ← or_external (c.decode_peer id.peer_id)
  fail_if (not (c.matches pid key)) validation_error

-- `!valid || err != nil`
abbrev pub or_invalid : Option Bool → Bool
or_invalid none = true
or_invalid (some b) = not b

unfoldable pub check_marks : Rating → Result (Unit {0})
check_marks r = do
  fail_if (out_of_range r.overall) validation_error
  fail_if (out_of_range r.quality) validation_error
  fail_if (out_of_range r.description) validation_error
  fail_if (out_of_range r.delivery_speed) validation_error
  fail_if (out_of_range r.customer_service) validation_error
  fail_if (ltb 10000 (len r.review)) validation_error

-- The vendor has signed the rating key.
unfoldable pub check_vendor_sig : RatingLibs → PbId → Pubkeys → RatingSignature → Result (Unit {0})
unfolding check_peer
check_vendor_sig c id pubkeys sig = do
  key ← or_external (Keys.identity_key c.keys pubkeys.identity)
  ser ← or_external (c.marshal_signature (record sig { vendor_signature = [] }))
  fail_if (or_invalid (Keys.verify c.keys key ser sig.vendor_signature)) validation_error
  check_peer c id key

-- The buyer, unless anonymous, has signed the hash of the rating key.
unfoldable pub check_buyer_sig :
    RatingLibs → Option PbId → Bytes → RatingSignature → Result (Unit {0})
unfolding check_peer
check_buyer_sig c none buyer_sig sig = ok tt
check_buyer_sig c (some id) buyer_sig sig = do
  pubkeys ← or_err validation_error id.pubkeys
  key ← or_external (Keys.identity_key c.keys (Pubkeys.identity pubkeys))
  fail_if (or_invalid (Keys.verify c.keys key (Keys.sum c.keys sig.rating_key) buyer_sig))
      validation_error
  check_peer c id key

-- The rating key has signed the rating.
unfoldable pub check_rating_sig : RatingLibs → Rating → RatingSignature → Result (Unit {0})
check_rating_sig c r sig = do
  ser ← or_external (c.marshal_rating (record r { rating_signature = [] }))
  key ← or_external (Keys.escrow_key c.keys sig.rating_key)
  s ← or_external (Keys.parse_signature c.keys r.rating_signature)
  fail_if (not (Keys.verify_hash c.keys s (Keys.sum c.keys ser) key)) validation_error

unfoldable pub validate_rating : RatingLibs → Rating → Result (Unit {0})
unfolding check_marks check_vendor_sig check_buyer_sig check_rating_sig
validate_rating c r = do
  id ← or_err validation_error r.vendor_id
  pubkeys ← or_err validation_error (PbId.pubkeys id)
  sig ← or_err validation_error r.vendor_sig
  fail_if (is_nil (RatingSignature.rating_key sig)) validation_error
  check_marks r
  check_vendor_sig c id pubkeys sig
  check_buyer_sig c r.buyer_id r.buyer_sig sig
  check_rating_sig c r sig

abbrev InRange : ℕ → Type 0
InRange n = (1 ≤ n) × (n ≤ 5)

-- The ID has a key that has signed the bytes.
pub record HasSigned (c : RatingLibs) (id : PbId) (ser sig : Bytes) : Type 0 where
  pub pubkeys : Pubkeys
  pub key : Bytes
  pub pid : Bytes
  pub has_pubkeys : id.pubkeys ≡ some pubkeys
  pub is_key : Keys.identity_key c.keys pubkeys.identity ≡ some key
  pub signed : Keys.verify c.keys key ser sig ≡ some true
  pub is_peer : c.decode_peer id.peer_id ≡ some pid
  pub of_key : c.matches pid key ≡ true

-- What an accepted rating is.
pub record IsGenuineRating (c : RatingLibs) (r : Rating) : Type 0 where
  pub id : PbId
  pub sig : RatingSignature
  pub ser : Bytes
  pub rating_ser : Bytes
  pub rating_key : Bytes
  pub signature : Bytes
  pub has_vendor : r.vendor_id ≡ some id
  pub has_sig : r.vendor_sig ≡ some sig
  pub in_range :
      InRange r.overall
      × InRange r.quality
      × InRange r.description
      × InRange r.delivery_speed
      × InRange r.customer_service
  pub short : len r.review ≤ 10000
  pub of_vendor : c.marshal_signature (record sig { vendor_signature = [] }) ≡ some ser
  pub vendor_signed : HasSigned c id ser sig.vendor_signature
  pub buyer_signed :
      (r.buyer_id ≡ none)
      ⊎ (b : PbId) × (r.buyer_id ≡ some b)
        × HasSigned c b (Keys.sum c.keys sig.rating_key) r.buyer_sig
  pub of_rating : c.marshal_rating (record r { rating_signature = [] }) ≡ some rating_ser
  pub is_rating_key : Keys.escrow_key c.keys sig.rating_key ≡ some rating_key
  pub is_signature : Keys.parse_signature c.keys r.rating_signature ≡ some signature
  pub rating_signed :
      Keys.verify_hash c.keys signature (Keys.sum c.keys rating_ser) rating_key ≡ true

valid_of : (o : Option Bool) → or_invalid o ≡ false → o ≡ some true
valid_of none h = cc
valid_of (some b) h = ap {B = Option Bool} (λ x. some x) (test_of b h)

check_peer-ok :
    (c : RatingLibs) (id : PbId) (key : Bytes)
    → check_peer c id key ≡ ok tt
    → (pid : Bytes) × (c.decode_peer id.peer_id ≡ some pid) × (c.matches pid key ≡ true)
unfolding check_peer
check_peer-ok c id key done =
    let (pid, h, k) = external-ok (c.decode_peer id.peer_id) _ done in
    (pid, h, passed (c.matches pid key) k)

check_marks-InRange :
    (r : Rating)
    → check_marks r ≡ ok tt
    → (InRange r.overall
        × InRange r.quality
        × InRange r.description
        × InRange r.delivery_speed
        × InRange r.customer_service)
      × (len r.review ≤ 10000)
unfolding check_marks
check_marks-InRange r done =
    let (a, k) = fail_if-ok (out_of_range r.overall) _ _ done in
    let (b, k1) = fail_if-ok (out_of_range r.quality) _ _ k in
    let (d, k2) = fail_if-ok (out_of_range r.description) _ _ k1 in
    let (e, k3) = fail_if-ok (out_of_range r.delivery_speed) _ _ k2 in
    let (f, k4) = fail_if-ok (out_of_range r.customer_service) _ _ k3 in
    let l = fail_if-false (ltb 10000 (len r.review)) k4 in
    (
      (
        between r.overall a,
        between r.quality b,
        between r.description d,
        between r.delivery_speed e,
        between r.customer_service f,
      ),
      ground (arith, l),
    )
  where
    between : (n : ℕ) → out_of_range n ≡ false → InRange n
    between n h = ground (arith, h)

check_buyer_sig-ok :
    (c : RatingLibs) (o : Option PbId) (buyer_sig : Bytes) (sig : RatingSignature)
    → check_buyer_sig c o buyer_sig sig ≡ ok tt
    → (o ≡ none)
      ⊎ (b : PbId) × (o ≡ some b) × HasSigned c b (Keys.sum c.keys sig.rating_key) buyer_sig
unfolding check_buyer_sig
check_buyer_sig-ok c none buyer_sig sig done = inl refl
check_buyer_sig-ok c (some id) buyer_sig sig done =
    let (pubkeys, hp, k) = search-ok validation_error id.pubkeys _ done in
    let (key, hk, k1) = external-ok (Keys.identity_key c.keys pubkeys.identity) _ k in
    let (v, k2) =
      fail_if-ok (or_invalid (Keys.verify c.keys key (Keys.sum c.keys sig.rating_key) buyer_sig)) _
        _ k1 in
    let (pid, hd, hm) = check_peer-ok c id key k2 in
    inr (
      id,
      refl,
      record {
        pubkeys = pubkeys;
        key = key;
        pid = pid;
        has_pubkeys = hp;
        is_key = hk;
        signed = valid_of _ v;
        is_peer = hd;
        of_key = hm;
      },
    )

-- What ValidateRating promises: each mark of a rating that it accepts is between one and five, and the
-- review has at most ten thousand bytes; the vendor's identity key, which belongs to the vendor's peer
-- ID, has signed the message with the rating key; the buyer is anonymous or the key of the buyer's peer
-- ID has signed the hash of the rating key; and the rating key has signed the rating.
pub validate_rating-IsGenuineRating :
    (c : RatingLibs) (r : Rating) → validate_rating c r ≡ ok tt → IsGenuineRating c r
unfolding validate_rating check_vendor_sig check_rating_sig
validate_rating-IsGenuineRating c r done =
    let (id, hid, k) = search-ok validation_error r.vendor_id _ done in
    let (pubkeys, hp, k1) = search-ok validation_error id.pubkeys _ k in
    let (sig, hsig, k2) = search-ok validation_error r.vendor_sig _ k1 in
    let (_, k3) = fail_if-ok (is_nil sig.rating_key) _ _ k2 in
    let (_, hm, k4) = bind_result-ok (check_marks r) _ k3 in
    let (_, hv, k5) = bind_result-ok (check_vendor_sig c id pubkeys sig) _ k4 in
    let (_, hb, hr) = bind_result-ok (check_buyer_sig c r.buyer_id r.buyer_sig sig) _ k5 in
    let (key, hk, v1) = external-ok (Keys.identity_key c.keys pubkeys.identity) _ hv in
    let (ser, hs, v2) =
      external-ok (c.marshal_signature (record sig { vendor_signature = [] })) _ v1 in
    let (v, v3) =
      fail_if-ok (or_invalid (Keys.verify c.keys key ser sig.vendor_signature)) _ _ v2 in
    let (pid, hd, hmk) = check_peer-ok c id key v3 in
    let (rser, hrs, r1) =
      external-ok (c.marshal_rating (record r { rating_signature = [] })) _ hr in
    let (rkey, hrk, r2) = external-ok (Keys.escrow_key c.keys sig.rating_key) _ r1 in
    let (s, hps, r3) = external-ok (Keys.parse_signature c.keys r.rating_signature) _ r2 in
    record {
      id = id;
      sig = sig;
      ser = ser;
      rating_ser = rser;
      rating_key = rkey;
      signature = s;
      has_vendor = hid;
      has_sig = hsig;
      in_range = (check_marks-InRange r hm).0;
      short = (check_marks-InRange r hm).1;
      of_vendor = hs;
      vendor_signed = record {
        pubkeys = pubkeys;
        key = key;
        pid = pid;
        has_pubkeys = hp;
        is_key = hk;
        signed = valid_of _ v;
        is_peer = hd;
        of_key = hmk;
      };
      buyer_signed = check_buyer_sig-ok c r.buyer_id r.buyer_sig sig hb;
      of_rating = hrs;
      is_rating_key = hrk;
      is_signature = hps;
      rating_signed = passed _ r3;
    }
