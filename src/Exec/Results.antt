-- ===== src/Exec/Results.antt =====
-- Chains of calls that return a value or an error, without a state.
use openbazaar.Exec.Defs.{Result, bind_result}

infixl 5 ◌>>=◌ ◌>>◌
abbrev pub ◌>>=◌ : {A B : Type 0} → Result A → (A → Result B) → Result B
r >>= f = bind_result r f

abbrev pub ◌>>◌ : {B : Type 0} → Result (Unit {0}) → Result B → Result B
r >> k = r >>= λ _. k
