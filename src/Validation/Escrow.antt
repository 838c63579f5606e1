-- ===== src/Validation/Escrow.antt =====
-- orders/utils/validate.go: ValidatePayment.
use openbazaar.Prelude.{
  ℕ, ◌*◌, ◌%◌, ◌^◌, Bool, true, false, Option, none, some, List, [], ◌∷◌, not, ltb, str_eq,
  if◌then◌else◌,
}
use openbazaar.Exec.{
  Result, ok, err, or_external, or_err, or_panic, fail_if, no_escrow, validation_error,
}
use openbazaar.Exec.Results.{◌>>=◌, ◌>>◌}
use openbazaar.Prelude.Int.{ℤ}
use openbazaar.Proto.Common.{Bytes, Text}
use openbazaar.Listings.Options.{int64}
use openbazaar.Proto.Orders.{Method, direct, cancelable, moderated, other_method, Payment}

-- iwallet.Escrow: CreateMultisigAddress of keys, with the number of signatures that suffice. The second
-- part is CreateMultisigWithTimeout, with a time.Duration, where the wallet has it. Both return an
-- address and a script.
pub record EscrowWallet : Type 0 where
  pub create_address : List Bytes → ℕ → Option (Text × Bytes)
  pub create_with_timeout : Option (List Bytes → ℕ → ℤ → Bytes → Option (Text × Bytes))

-- The libraries, and the escrow keys that the order's parties name, which are `none` where a pointer on
-- the way to them is nil.
pub record EscrowChecks : Type 0 where
  pub is_integer : Text → Bool
  pub decode_hex : Text → Option Bytes
  pub encode_hex : Bytes → Text
  pub parse_key : Bytes → Option Bytes
  -- GenerateEscrowPublicKey
  pub derive : Bytes → Bytes → Option Bytes
  pub decode_peer : Text → Option Text
  pub vendor_escrow : Option Bytes
  pub buyer_escrow : Option Bytes
  -- the wallet, if it is an iwallet.Escrow
  pub wallet : Option EscrowWallet

-- A party's key, derived with the chain code.
unfoldable pub escrow_key : EscrowChecks → Bytes → Bytes → Result Bytes
escrow_key c chaincode bytes = do
  key ← or_external (c.parse_key bytes)
  or_external (c.derive key chaincode)

-- `time.Hour * time.Duration(hours)`: nanoseconds, in an int64, which wraps around.
unfoldable pub timeout_of : ℕ → ℤ
unfolding int64
timeout_of hours = int64 (3600000000000 * hours % 2 ^ 64)

-- Two of three, with a timeout for the vendor if there is one and the wallet has it.
unfoldable pub moderated_script :
    EscrowChecks → EscrowWallet → ℕ → Bytes → Bytes → Bytes → Result (Text × Bytes)
unfolding timeout_of
moderated_script c w hours buyer vendor moderator =
    let keys : List Bytes = buyer ∷ vendor ∷ moderator ∷ [] in
    elim w.create_with_timeout [
      | none ↦ or_external (w.create_address keys 2)
      | some create ↦
          if ltb 0 hours
          then or_external (create keys 2 (timeout_of hours) vendor)
          else or_external (w.create_address keys 2)
    ]

unfoldable pub check_script : EscrowChecks → Payment → Text × Bytes → Result (Unit {0})
check_script c p made = do
  fail_if (not (str_eq p.address made.0)) validation_error
  fail_if (not (str_eq p.script (c.encode_hex made.1))) validation_error

unfoldable pub check_moderated :
    EscrowChecks → Payment → ℕ → Bytes → Bytes → Bytes → Result (Unit {0})
unfolding escrow_key moderated_script check_script
check_moderated c p hours chaincode buyer vendor = do
  moderator_id ← or_err validation_error (c.decode_peer p.moderator)
  moderator ← escrow_key c chaincode p.moderator_key
  w ← or_err no_escrow c.wallet
  made ← moderated_script c w hours buyer vendor moderator
  check_script c p made

unfoldable pub check_cancelable : EscrowChecks → Payment → Bytes → Bytes → Result (Unit {0})
unfolding check_script
check_cancelable c p buyer vendor = do
  w ← or_err no_escrow c.wallet
  made ← or_external (EscrowWallet.create_address w (buyer ∷ vendor ∷ []) 1)
  check_script c p made

unfoldable pub check_method :
    EscrowChecks → Method → Payment → ℕ → Bytes → Bytes → Bytes → Result (Unit {0})
unfolding check_moderated check_cancelable
check_method c moderated p hours chaincode buyer vendor =
    check_moderated c p hours chaincode buyer vendor
check_method c cancelable p hours chaincode buyer vendor = check_cancelable c p buyer vendor
check_method c direct p hours chaincode buyer vendor = ok tt
check_method c (other_method n) p hours chaincode buyer vendor = err validation_error

abbrev pub has_fee : Method → Bool
has_fee direct = false
has_fee _ = true

unfoldable pub check_fee : EscrowChecks → Payment → Result (Unit {0})
check_fee c p =
    if has_fee p.method
    then (fail_if (str_eq p.escrow_release_fee "") validation_error
        >> fail_if (not (c.is_integer p.escrow_release_fee)) validation_error)
    else ok tt

unfoldable pub validate_payment : EscrowChecks → Payment → ℕ → Result (Unit {0})
unfolding escrow_key check_method check_fee
validate_payment c p hours = do
  fail_if (str_eq p.amount "") validation_error
  fail_if (not (c.is_integer p.amount)) validation_error
  fail_if (str_eq p.address "") validation_error
  chaincode ← or_external (c.decode_hex p.chaincode)
  vendor_bytes ← or_panic c.vendor_escrow
  vendor ← escrow_key c chaincode vendor_bytes
  buyer_bytes ← or_panic c.buyer_escrow
  buyer ← escrow_key c chaincode buyer_bytes
  check_method c p.method p hours chaincode buyer vendor
  check_fee c p
