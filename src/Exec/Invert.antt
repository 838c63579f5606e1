-- ===== src/Exec/Invert.antt =====
-- What a chain of fallible steps that succeeded went through, with and without a state.
use openbazaar.Prelude.{Bool, true, false, Option, none, some, ◌≡◌, refl}
use openbazaar.Exec.Defs.{
  Error, Result, ok, err, panic, bind_result, or_external, or_err, or_panic, fail_if, Exec, lift,
  ◌>>=◌,
}

pub bind_result-ok :
    {A B : Type 0} (r : Result A) (f : A → Result B) {b : B}
    → bind_result r f ≡ ok b
    → (a : A) × (r ≡ ok a) × (f a ≡ ok b)
bind_result-ok (ok a) f h = (a, refl, h)
bind_result-ok (err e) f h = cc
bind_result-ok panic f h = cc

pub or_external-ok : {A : Type 0} (o : Option A) {a : A} → or_external o ≡ ok a → o ≡ some a
or_external-ok none h = cc
or_external-ok (some x) h = cc

-- A chain that begins with a library call.
pub external-ok :
    {A B : Type 0} (o : Option A) (f : A → Result B) {b : B}
    → bind_result (or_external o) f ≡ ok b
    → (a : A) × (o ≡ some a) × (f a ≡ ok b)
external-ok none f h = cc
external-ok (some a) f h = (a, refl, h)

-- A chain that begins with a test.
pub fail_if-ok :
    {B : Type 0} (c : Bool) (e : Error) (f : Unit {0} → Result B) {b : B}
    → bind_result (fail_if c e) f ≡ ok b
    → (c ≡ false) × (f tt ≡ ok b)
fail_if-ok true e f h = cc
fail_if-ok false e f h = (refl, h)

-- Chains that begin with a search, and with a pointer.
pub search-ok :
    {A B : Type 0} (e : Error) (o : Option A) (f : A → Result B) {b : B}
    → bind_result (or_err e o) f ≡ ok b
    → (a : A) × (o ≡ some a) × (f a ≡ ok b)
search-ok e none f h = cc
search-ok e (some a) f h = (a, refl, h)

pub pointer-ok :
    {A B : Type 0} (o : Option A) (f : A → Result B) {b : B}
    → bind_result (or_panic o) f ≡ ok b
    → (a : A) × (o ≡ some a) × (f a ≡ ok b)
pointer-ok none f h = cc
pointer-ok (some a) f h = (a, refl, h)

pub ok_injective : {A : Type 0} {a b : A} → ok a ≡ ok b → a ≡ b
ok_injective h = cc

result_step-ok :
    {S A B : Type 0} (x : Result A × S) (f : A → Exec S B) {t : S} {b : B}
    → (let y : Result B × S = elim x.0 [
      | ok a ↦ f a x.1
      | err e ↦ (err e, x.1)
      | panic ↦ (panic, x.1)
    ] in
        y ≡ (ok b, t))
    → (a : A) × (u : S) × (x ≡ (ok a, u)) × (f a u ≡ (ok b, t))
result_step-ok (ok a, u) f h = (a, u, refl, h)
result_step-ok (err e, u) f h = cc
result_step-ok (panic, u) f h = cc

-- A chain with a state, and its first step.
pub step-ok :
    {S A B : Type 0} (m : Exec S A) (f : A → Exec S B) {s t : S} {b : B}
    → (m >>= f) s ≡ (ok b, t)
    → (a : A) × (u : S) × (m s ≡ (ok a, u)) × (f a u ≡ (ok b, t))
unfolding ◌>>=◌
step-ok m f {s = s} h = result_step-ok (m s) f h

-- A first step that leaves the state alone.
pub lifted-ok :
    {S A B : Type 0} (r : Result A) (f : A → Exec S B) {s t : S} {b : B}
    → (lift r >>= f) s ≡ (ok b, t)
    → (a : A) × (r ≡ ok a) × (f a s ≡ (ok b, t))
unfolding ◌>>=◌
lifted-ok (ok a) f h = (a, refl, h)
lifted-ok (err e) f h = cc
lifted-ok panic f h = cc

-- A first step that reads the state.
pub read-ok :
    {S A B : Type 0} (g : S → Result A) (f : A → Exec S B) {s t : S} {b : B}
    → ((λ u. (g u, u)) >>= f) s ≡ (ok b, t)
    → (a : A) × (g s ≡ ok a) × (f a s ≡ (ok b, t))
unfolding ◌>>=◌
read-ok g f {s = s} h = lifted-ok (g s) f h
