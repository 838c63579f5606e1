-- ===== src/Exec/Keeps.antt =====
-- What a call leaves behind, however it ends: the rules by which the proofs follow the code.
use openbazaar.Prelude.{Bool, true, false, ◌≡◌, refl, if◌then◌else◌}
use openbazaar.Exec.Defs.{Result, ok, err, panic, Exec, lift, gets, modify, ◌>>=◌, ◌>>◌}

-- The call `m`, made in state `s`, ends in a state with `Q`.
pub record Leaves {ℓ} {S A : Type 0} (Q : S → Type ℓ) (m : Exec S A) (s : S) : Type ℓ where
  pub holds : Q (m s).1

module _ {ℓ} {S A : Type 0} {Q : S → Type ℓ} where
  -- The call leaves the state alone.
  pub leave : (r : Result A) (s : S) → Q s → Leaves Q (lift r) s
  leave r s q = record { holds = q }

  -- A step that leaves the state alone, and whose error or panic ends the call.
  pub after_lift :
      {B : Type 0} {r : Result B} {f : B → Exec S A} {s : S}
      → Q s
      → ((b : B) → r ≡ ok b → Leaves Q (f b) s)
      → Leaves Q (lift r >>= f) s
  unfolding ◌>>=◌
  after_lift {r = ok b} q k = record { holds = (k b refl).holds }
  after_lift {r = err e} q k = record { holds = q }
  after_lift {r = panic} q k = record { holds = q }

  -- A step whose result depends on the state that it leaves alone.
  pub after_read :
      {B : Type 0} (r : S → Result B) {f : B → Exec S A} {s : S}
      → Q s
      → ((b : B) → r s ≡ ok b → Leaves Q (f b) s)
      → Leaves Q ((λ t. (r t, t)) >>= f) s
  unfolding ◌>>=◌
  after_read r {f = f} {s = s} q k = record { holds = (after_lift {r = r s} {f = f} q k).holds }

  pub after_gets :
      {B : Type 0} (g : S → B) (f : B → Exec S A) {s : S}
      → Leaves Q (f (g s)) s
      → Leaves Q (gets g >>= f) s
  unfolding ◌>>=◌
  after_gets g f k = record { holds = k.holds }

  pub after_modify :
      (g : S → S) {k : Exec S A} {s : S} → Leaves Q k (g s) → Leaves Q (modify g >> k) s
  unfolding ◌>>=◌
  after_modify g k = record { holds = k.holds }

  pub after_if :
      {b : Bool} {m n : Exec S A} {s : S}
      → (b ≡ true → Leaves Q m s)
      → (b ≡ false → Leaves Q n s)
      → Leaves Q (if b then m else n) s
  after_if {b = true} k l = k refl
  after_if {b = false} k l = l refl

module _ {ℓ} {S A B : Type 0} {P Q : S → Type ℓ} where
  after_result :
      (x : Result B × S) (f : B → Exec S A)
      → ((t : S) → P t → Q t)
      → P x.1
      → ((b : B) (t : S) → x ≡ (ok b, t) → P t → Leaves Q (f b) t)
      → let y : Result A × S = elim x.0 [
        | ok b ↦ f b x.1
        | err e ↦ (err e, x.1)
        | panic ↦ (panic, x.1)
      ] in
        Q y.1
  after_result (ok b, t) f weaken p k = (k b t refl p).holds
  after_result (err e, t) f weaken p k = weaken t p
  after_result (panic, t) f weaken p k = weaken t p

  -- A step that may write, when what it leaves is known however it ends.
  pub after_step :
      {m : Exec S B} {f : B → Exec S A} {s : S}
      → ((t : S) → P t → Q t)
      → Leaves P m s
      → ((b : B) (t : S) → m s ≡ (ok b, t) → P t → Leaves Q (f b) t)
      → Leaves Q (m >>= f) s
  unfolding ◌>>=◌
  after_step {m = m} {f = f} {s = s} weaken p k = record {
    holds = after_result (m s) f weaken p.holds k;
  }
