-- ===== src/Commands/Rules.antt =====
-- core/: the rules by which the proofs follow the commands from one step to the next.
use openbazaar.Prelude.{Bool, true, false, Option, if◌then◌else◌}
use openbazaar.Exec.{Result, ok, err, panic, Exec, lift, ◌>>=◌}
use openbazaar.Proto.Common.{Text}
use openbazaar.Proto.Net.{NetMessage, OrderMessage}
use openbazaar.Commands.Defs.{
  Purse, Commander, Deal, Pending, begin_wallet, roll_back_wallet, commit_wallet, or_roll_back,
  process, send,
}

-- The step keeps `P`, however it ends.
pub record Steps {ℓ} {A : Type 0} (P : Deal → Type ℓ) (m : Exec Deal A) : Type ℓ where
  pub holds : (d : Deal) → P d → P (m d).1

-- The steps that lead to the end, made where `P` holds, end with `R`.
pub record Ends {ℓ κ} {A : Type 0} (P : Deal → Type ℓ) (R : Result A × Deal → Type κ)
    (m : Exec Deal A) : Type (ℓ ⊔ κ) where
  pub holds : (d : Deal) → P d → R (m d)

-- What the single steps of a command do for `P` and for the end `R` of the whole.
pub record Rule {ℓ κ} (c : Commander) (P : Deal → Type ℓ) (R : Result (Unit {0}) × Deal → Type κ)
    : Type (ℓ ⊔ κ) where
  pub weaken : (r : Result (Unit {0})) (d : Deal) → P d → R (r, d)
  pub processes : (from : Text) (m : OrderMessage) → Steps P (process c from m)
  pub sends : (to : Text) (m : NetMessage) → Steps P (send c to m)
  pub begins : (purse : Purse) → Steps P (begin_wallet purse)
  pub rolls_back : (p : Option Pending) (d : Deal) → P d → P (roll_back_wallet p d)
  pub commits : (p : Option Pending) → Ends P R (commit_wallet p)

module _ {ℓ} {P : Deal → Type ℓ} where
  pub lifts : {A : Type 0} (r : Result A) → Steps P (lift r)
  lifts r = record { holds = λ d h. h }

  step_result :
      {A B : Type 0} (f : A → Exec Deal B) (x : Result A × Deal)
      → ((a : A) → Steps P (f a))
      → P x.1
      → let y : Result B × Deal = elim x.0 [
        | ok a ↦ f a x.1
        | err e ↦ (err e, x.1)
        | panic ↦ (panic, x.1)
      ] in
        P y.1
  step_result f (ok a, t) k h = (k a).holds t h
  step_result f (err e, t) k h = h
  step_result f (panic, t) k h = h

  pub Steps-then :
      {A B : Type 0} {m : Exec Deal A} {f : A → Exec Deal B}
      → Steps P m
      → ((a : A) → Steps P (f a))
      → Steps P (m >>= f)
  unfolding ◌>>=◌
  Steps-then {m = m} {f = f} s k = record { holds = λ d h. step_result f (m d) k (s.holds d h) }

  pub Steps-if :
      {A : Type 0} (b : Bool) {m n : Exec Deal A}
      → Steps P m
      → Steps P n
      → Steps P (if b then m else n)
  Steps-if true s t = s
  Steps-if false s t = t

module _ {ℓ κ} {c : Commander} {P : Deal → Type ℓ} {R : Result (Unit {0}) × Deal → Type κ}
    (rule : Rule c P R) where
  ends_result :
      {A : Type 0} (f : A → Exec Deal (Unit {0})) (x : Result A × Deal)
      → ((a : A) → Ends P R (f a))
      → P x.1
      → let y : Result (Unit {0}) × Deal = elim x.0 [
        | ok a ↦ f a x.1
        | err e ↦ (err e, x.1)
        | panic ↦ (panic, x.1)
      ] in
        R y
  ends_result f (ok a, t) k h = (k a).holds t h
  ends_result f (err e, t) k h = rule.weaken (err e) t h
  ends_result f (panic, t) k h = rule.weaken panic t h

  pub Ends-then :
      {A : Type 0} {m : Exec Deal A} {f : A → Exec Deal (Unit {0})}
      → Steps P m
      → ((a : A) → Ends P R (f a))
      → Ends P R (m >>= f)
  unfolding ◌>>=◌
  Ends-then {m = m} {f = f} s k = record { holds = λ d h. ends_result f (m d) k (s.holds d h) }

  pub Ends-if :
      (b : Bool) {m n : Exec Deal (Unit {0})}
      → Ends P R m
      → Ends P R n
      → Ends P R (if b then m else n)
  Ends-if true s t = s
  Ends-if false s t = t

  -- A command may end with a step.
  pub Ends-with : {m : Exec Deal (Unit {0})} → Steps P m → Ends P R m
  Ends-with {m = m} s = record { holds = λ d h. rule.weaken (m d).0 (m d).1 (s.holds d h) }

  rolled :
      {A : Type 0} (p : Option Pending) (x : Result A × Deal)
      → P x.1
      → let y : Result A × Deal = elim x.0 [
        | ok a ↦ (ok a, x.1)
        | err e ↦ (err e, roll_back_wallet p (x.1))
        | panic ↦ (panic, x.1)
      ] in
        P y.1
  rolled p (ok a, t) h = h
  rolled p (err e, t) h = rule.rolls_back p t h
  rolled p (panic, t) h = h

  pub Steps-or_roll_back :
      {A : Type 0} (p : Option Pending) {m : Exec Deal A} → Steps P m → Steps P (or_roll_back p m)
  Steps-or_roll_back p {m = m} s = record { holds = λ d h. rolled p (m d) (s.holds d h) }
