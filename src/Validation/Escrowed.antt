-- ===== src/Validation/Escrowed.antt =====
-- orders/utils/validate.go: where the money of an order goes whose payment ValidatePayment accepts.
use openbazaar.Prelude.{
  ℕ, ◌<◌, Option, none, some, arith, List, [], ◌∷◌, ◌≡◌, ◌⊎◌, inl, inr, not, ltb, str_eq, eq_iff,
  Bool-cases, Option-cases,
}
use openbazaar.Exec.{ok, no_escrow, validation_error}
use openbazaar.Exec.Invert.{
  bind_result-ok, external-ok, or_external-ok, search-ok, pointer-ok, fail_if-ok,
}
use openbazaar.Prelude.Int.{ℤ}
use openbazaar.Proto.Common.{Bytes, Text}
use openbazaar.Proto.Orders.{Method, direct, cancelable, moderated, other_method, Payment}
use openbazaar.Validation.Valid.{passed, test_of}
use openbazaar.Validation.Escrow.{
  EscrowWallet, EscrowChecks, escrow_key, timeout_of, moderated_script, check_script,
  check_moderated, check_cancelable, check_method, validate_payment,
}

-- The key of a party, derived with the chain code of the payment.
pub record IsKey (c : EscrowChecks) (chaincode bytes key : Bytes) : Type 0 where
  pub parsed : Bytes
  pub parses : c.parse_key bytes ≡ some parsed
  pub derives : c.derive parsed chaincode ≡ some key

escrow_key-IsKey :
    (c : EscrowChecks) (chaincode bytes key : Bytes)
    → escrow_key c chaincode bytes ≡ ok key
    → IsKey c chaincode bytes key
unfolding escrow_key
escrow_key-IsKey c chaincode bytes key done =
    let (parsed, hp, k) = external-ok (c.parse_key bytes) _ done in
    record { parsed = parsed; parses = hp; derives = or_external-ok (c.derive parsed chaincode) k }

-- The address and the script of the payment are those that were made.
abbrev pub Pays : EscrowChecks → Payment → Text × Bytes → Type 0
Pays c p made = (p.address ≡ made.0) × (p.script ≡ c.encode_hex made.1)

-- The wallet makes them of the keys, with so many signatures: with the timeout where the order has one
-- and the wallet can, and else without.
pub data IsMade (w : EscrowWallet) (keys : List Bytes) (n hours : ℕ) (vendor : Bytes)
    (made : Text × Bytes) : Type 0 where
  with_timeout :
      (create : List Bytes → ℕ → ℤ → Bytes → Option (Text × Bytes))
      → w.create_with_timeout ≡ some create
      → 0 < hours
      → create keys n (timeout_of hours) vendor ≡ some made
      → IsMade w keys n hours vendor made
  without_timeout :
      (w.create_with_timeout ≡ none) ⊎ (hours ≡ 0)
      → w.create_address keys n ≡ some made
      → IsMade w keys n hours vendor made

-- Where the money goes: to an address of one of two or of two of three keys, or, for a direct payment,
-- to any address.
pub IsEscrow : EscrowChecks → Method → Payment → ℕ → (chaincode buyer vendor : Bytes) → Type 0
IsEscrow c direct p hours chaincode buyer vendor = Unit
IsEscrow c (other_method n) p hours chaincode buyer vendor = ⊥
IsEscrow c cancelable p hours chaincode buyer vendor =
    (w : EscrowWallet) × (made : Text × Bytes) × (c.wallet ≡ some w)
    × (w.create_address (buyer ∷ vendor ∷ []) 1 ≡ some made)
    × Pays c p made
IsEscrow c moderated p hours chaincode buyer vendor =
    (w : EscrowWallet) × (moderator : Bytes) × (made : Text × Bytes) × (c.wallet ≡ some w)
    × IsKey c chaincode p.moderator_key moderator
    × IsMade w (buyer ∷ vendor ∷ moderator ∷ []) 2 hours vendor made
    × Pays c p made

check_script-Pays :
    (c : EscrowChecks) (p : Payment) (made : Text × Bytes)
    → check_script c p made ≡ ok tt
    → Pays c p made
unfolding check_script
check_script-Pays c p made done =
    let (h, k) = fail_if-ok (not (str_eq p.address made.0)) _ _ done in
    (
      (eq_iff p.address made.0).0 (test_of _ h),
      (eq_iff p.script (c.encode_hex made.1)).0 (passed _ k),
    )

moderated_script-IsMade :
    (c : EscrowChecks) (w : EscrowWallet) (hours : ℕ) (buyer vendor moderator : Bytes)
    (made : Text × Bytes)
    → moderated_script c w hours buyer vendor moderator ≡ ok made
    → IsMade w (buyer ∷ vendor ∷ moderator ∷ []) 2 hours vendor made
unfolding moderated_script
moderated_script-IsMade c w hours buyer vendor moderator made done =
    elim (Option-cases w.create_with_timeout) [
      | inl e ↦ without_timeout (inl e) (or_external-ok _ (rw e at done))
      | inr (create, e) ↦ elim (Bool-cases (ltb 0 hours)) [
        | inl l ↦ with_timeout create e (ground (arith, l)) (or_external-ok _ (rw (e, l) at done))
        | inr l ↦ without_timeout (inr (ground (arith, l))) (or_external-ok _ (rw (e, l) at done))
      ]
    ]

check_method-IsEscrow :
    (c : EscrowChecks) (m : Method) (p : Payment) (hours : ℕ) (chaincode buyer vendor : Bytes)
    → check_method c m p hours chaincode buyer vendor ≡ ok tt
    → IsEscrow c m p hours chaincode buyer vendor
unfolding check_method check_moderated check_cancelable IsEscrow
check_method-IsEscrow c direct p hours chaincode buyer vendor done = tt
check_method-IsEscrow c (other_method n) p hours chaincode buyer vendor done = cc
check_method-IsEscrow c cancelable p hours chaincode buyer vendor done =
    let (w, hw, k) = search-ok no_escrow c.wallet _ done in
    let (made, hm, k1) = external-ok (w.create_address (buyer ∷ vendor ∷ []) 1) _ k in
    (w, made, hw, hm, check_script-Pays c p made k1)
check_method-IsEscrow c moderated p hours chaincode buyer vendor done =
    let (_, _, k) = search-ok validation_error (c.decode_peer p.moderator) _ done in
    let (moderator, hk, k1) = bind_result-ok (escrow_key c chaincode p.moderator_key) _ k in
    let (w, hw, k2) = search-ok no_escrow c.wallet _ k1 in
    let (made, hm, k3) = bind_result-ok (moderated_script c w hours buyer vendor moderator) _ k2 in
    (
      w,
      moderator,
      made,
      hw,
      escrow_key-IsKey c chaincode p.moderator_key moderator hk,
      moderated_script-IsMade c w hours buyer vendor moderator made hm,
      check_script-Pays c p made k3,
    )

-- What ValidatePayment promises: a payment that it accepts, with the keys of the vendor and of the buyer
-- derived with its chain code, goes to the address and names the script of one of these two keys if it
-- is cancelable, and of two of these and the moderator's key if it is moderated, in that case with the
-- order's timeout, as an int64 of nanoseconds, after which the vendor's key suffices, exactly if that is
-- not zero hours and the wallet has timeouts; and its method is one of these two or direct.
pub validate_payment-IsEscrow :
    (c : EscrowChecks) (p : Payment) (hours : ℕ)
    → validate_payment c p hours ≡ ok tt
    → (chaincode vendor_bytes buyer_bytes vendor buyer : Bytes) × (c.decode_hex p.chaincode
        ≡ some chaincode)
      × (c.vendor_escrow ≡ some vendor_bytes)
      × (c.buyer_escrow ≡ some buyer_bytes)
      × IsKey c chaincode vendor_bytes vendor
      × IsKey c chaincode buyer_bytes buyer
      × IsEscrow c p.method p hours chaincode buyer vendor
unfolding validate_payment
validate_payment-IsEscrow c p hours done =
    let (_, k) = fail_if-ok (str_eq p.amount "") _ _ done in
    let (_, k1) = fail_if-ok (not (c.is_integer p.amount)) _ _ k in
    let (_, k2) = fail_if-ok (str_eq p.address "") _ _ k1 in
    let (chaincode, hc, k3) = external-ok (c.decode_hex p.chaincode) _ k2 in
    let (vb, hvb, k4) = pointer-ok c.vendor_escrow _ k3 in
    let (vendor, hv, k5) = bind_result-ok (escrow_key c chaincode vb) _ k4 in
    let (bb, hbb, k6) = pointer-ok c.buyer_escrow _ k5 in
    let (buyer, hb, k7) = bind_result-ok (escrow_key c chaincode bb) _ k6 in
    let (_, hm, _) = bind_result-ok (check_method c p.method p hours chaincode buyer vendor) _ k7 in
    (
      chaincode,
      vb,
      bb,
      vendor,
      buyer,
      hc,
      hvb,
      hbb,
      escrow_key-IsKey c chaincode vb vendor hv,
      escrow_key-IsKey c chaincode bb buyer hb,
      check_method-IsEscrow c p.method p hours chaincode buyer vendor hm,
    )
