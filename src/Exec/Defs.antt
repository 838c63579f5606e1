-- ===== src/Exec/Defs.antt =====
-- How the Go code runs: a call returns a value, returns an error or panics, and what it has written
-- to its state by then stays written.
use openbazaar.Prelude.{Bool, true, false, Option, none, some}

-- The errors that the modelled code tells apart or creates; `external` is any error of a library.
pub data Error : Type 0 where
  external message_does_not_exist duplicate_transaction : Error
  changed_message unexpected_message unknown_message_type invalid_signature : Error
  wrong_rating_count wrong_signature_count incorrect_slug listing_not_found : Error
  not_moderated no_moderator validation_error no_escrow wrong_address invalid_amount : Error
  not_found message_too_large no_inbox_peers : Error
  bad_request wrong_state not_cancelable no_funds : Error

pub data Result (A : Type 0) : Type 0 where
  ok : A → Result A
  err : Error → Result A
  panic : Result A

abbrev pub bind_result : {A B : Type 0} → Result A → (A → Result B) → Result B
bind_result (ok a) f = f a
bind_result (err e) f = err e
bind_result panic f = panic

-- A library call that can fail.
abbrev pub or_external : {A : Type 0} → Option A → Result A
or_external none = err external
or_external (some a) = ok a

-- A search that can fail with an error of the code's own.
abbrev pub or_err : {A : Type 0} → Error → Option A → Result A
or_err e none = err e
or_err e (some a) = ok a

-- A pointer that the code follows without a test.
abbrev pub or_panic : {A : Type 0} → Option A → Result A
or_panic none = panic
or_panic (some a) = ok a

abbrev pub fail_if : Bool → Error → Result (Unit {0})
fail_if true e = err e
fail_if false e = ok tt

-- A method with a mutable receiver.
abbrev pub Exec : Type 0 → Type 0 → Type 0
Exec S A = S → Result A × S

module _ {S : Type 0} where
  abbrev pub pure : {A : Type 0} → A → Exec S A
  pure a s = (ok a, s)

  abbrev pub raise : {A : Type 0} → Error → Exec S A
  raise e s = (err e, s)

  abbrev pub lift : {A : Type 0} → Result A → Exec S A
  lift r s = (r, s)

  abbrev pub gets : {A : Type 0} → (S → A) → Exec S A
  gets f s = (ok (f s), s)

  abbrev pub modify : (S → S) → Exec S (Unit {0})
  modify f s = (ok tt, f s)

infixl 5 ◌>>=◌ ◌>>◌
unfoldable pub ◌>>=◌ : {S A B : Type 0} → Exec S A → (A → Exec S B) → Exec S B
◌>>=◌ m f s = let (r, t) = m s in elim r [ ok a ↦ f a t | err e ↦ (err e, t) | panic ↦ (panic, t) ]

abbrev pub ◌>>◌ : {S B : Type 0} → Exec S (Unit {0}) → Exec S B → Exec S B
m >> k = m >>= λ _. k
