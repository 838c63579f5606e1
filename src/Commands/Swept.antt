-- ===== src/Commands/Swept.antt =====
-- core/cancel.go and core/refund.go: which outputs a release spends, and where the money goes.
use openbazaar.Prelude.{
  Bool, true, false, List, [], ◌∷◌, ◌++◌, ◌≡◌, refl, sym, ap, ◌∙◌, map, not, ◌&&◌, ◌||◌, str_eq,
  bytes_eq, exists_in, if◌then◌else◌, append-nil, append_assoc, arith,
}
use openbazaar.Prelude.Int.{ℤ, pos, ◌+ℤ◌, ◌-ℤ◌, int_laws}
use openbazaar.Proto.Common.{Bytes, Text}
use openbazaar.Proto.Codec.{SpendInfo, Transaction}
use openbazaar.Commands.Release.{
  spent_ids, Sweep, add_output, sweep_outputs, sweep_all, sweep, spend_to,
}

-- Some transaction has an input with the ID of the output.
abbrev pub is_spent : List Transaction → SpendInfo → Bool
is_spent txs out =
    exists_in (λ t. exists_in (λ i. bytes_eq out.id (SpendInfo.id i)) (Transaction.from t)) txs

abbrev is_free : (SpendInfo → Bool) → Text → SpendInfo → Bool
is_free spent address out = not (spent out) && str_eq out.address address

abbrev free_outputs : (SpendInfo → Bool) → Text → List SpendInfo → List SpendInfo
free_outputs spent address [] = []
free_outputs spent address (out ∷ outs) =
    (if is_free spent address out then out ∷ [] else []) ++ free_outputs spent address outs

abbrev free_of_all : (SpendInfo → Bool) → Text → List Transaction → List SpendInfo
free_of_all spent address [] = []
free_of_all spent address (tx ∷ txs) =
    free_outputs spent address tx.to ++ free_of_all spent address txs

-- The outputs of the transactions at the address that none of the transactions spends.
abbrev pub unspent_at : Text → List Transaction → List SpendInfo
unspent_at address txs = free_of_all (is_spent txs) address txs

abbrev pub total_of : List SpendInfo → ℤ
total_of [] = pos 0
total_of (x ∷ xs) = SpendInfo.amount x +ℤ total_of xs

exists_in-join {ℓ} :
    {A : Type ℓ} (p : A → Bool) (xs ys : List A)
    → exists_in p (xs ++ ys) ≡ (exists_in p xs || exists_in p ys)
exists_in-join p [] ys = refl
exists_in-join p (x ∷ xs) ys = ground (arith, exists_in-join p xs ys)

exists_in-ids :
    (id : Bytes) (xs : List SpendInfo)
    → exists_in (bytes_eq id) (map SpendInfo.id xs)
      ≡ exists_in (λ i. bytes_eq id (SpendInfo.id i)) xs
exists_in-ids id [] = refl
exists_in-ids id (x ∷ xs) = ground (arith, exists_in-ids id xs)

-- The map `spent` has an output exactly if some transaction spends it.
spent_ids_lem :
    (txs : List Transaction) (out : SpendInfo)
    → exists_in (bytes_eq out.id) (spent_ids txs) ≡ is_spent txs out
unfolding spent_ids
spent_ids_lem [] out = refl
spent_ids_lem (tx ∷ txs) out =
    exists_in-join (bytes_eq out.id) (map SpendInfo.id tx.from) (spent_ids txs)
    ∙ cc (exists_in-ids out.id tx.from, spent_ids_lem txs out)

-- What a part of the loop adds.
abbrev Adds : Sweep → List SpendInfo → Sweep → Type 0
Adds s xs t = (t.from ≡ s.from ++ xs) × (t.total ≡ s.total +ℤ total_of xs)

Adds-none : (s : Sweep) → Adds s [] s
Adds-none s = (sym (append-nil s.from), grind int_laws)

total_of-append : (xs ys : List SpendInfo) → total_of (xs ++ ys) ≡ total_of xs +ℤ total_of ys
total_of-append [] ys = grind int_laws
total_of-append (x ∷ xs) ys = grind (int_laws, total_of-append xs ys)

Adds-both :
    (s t u : Sweep) (xs ys : List SpendInfo) → Adds s xs t → Adds t ys u → Adds s (xs ++ ys) u
Adds-both s t u xs ys h k = (
  k.0 ∙ ap {B = List SpendInfo} (λ l. l ++ ys) h.0 ∙ append_assoc s.from xs ys,
  grind (int_laws, h.1, k.1, total_of-append xs ys),
)

add_if-Adds :
    (b c : Bool) (out : SpendInfo) (s : Sweep)
    → b ≡ c
    → Adds s
        (if c then out ∷ [] else [])
        (if b then record { from = s.from ++ out ∷ []; total = s.total +ℤ out.amount } else s)
add_if-Adds true true out s e = (refl, grind int_laws)
add_if-Adds false false out s e = Adds-none s
add_if-Adds true false out s e = cc
add_if-Adds false true out s e = cc

sweep_outputs-Adds :
    (ids : List Bytes) (spent : SpendInfo → Bool) (address : Text) (outs : List SpendInfo)
    (s : Sweep)
    → ((out : SpendInfo) → exists_in (bytes_eq out.id) ids ≡ spent out)
    → Adds s (free_outputs spent address outs) (sweep_outputs ids address outs s)
unfolding sweep_outputs
sweep_outputs-Adds ids spent address [] s same = Adds-none s
sweep_outputs-Adds ids spent address (out ∷ outs) s same =
    Adds-both s (add_output ids address out s) _ _ _
      (add_if-Adds _ _ out s (ap {B = Bool} (λ b. not b && str_eq out.address address) (same out)))
      (sweep_outputs-Adds ids spent address outs (add_output ids address out s) same)

sweep_all-Adds :
    (ids : List Bytes) (spent : SpendInfo → Bool) (address : Text) (txs : List Transaction)
    (s : Sweep)
    → ((out : SpendInfo) → exists_in (bytes_eq out.id) ids ≡ spent out)
    → Adds s (free_of_all spent address txs) (sweep_all ids address txs s)
unfolding sweep_all
sweep_all-Adds ids spent address [] s same = Adds-none s
sweep_all-Adds ids spent address (tx ∷ txs) s same =
    Adds-both s (sweep_outputs ids address tx.to s) _ _ _
      (sweep_outputs-Adds ids spent address tx.to s same)
      (sweep_all-Adds ids spent address txs _ same)

-- The loops collect exactly the unspent outputs at the address, and their sum.
pub sweep_lem :
    (address : Text) (txs : List Transaction)
    → ((sweep address txs).from ≡ unspent_at address txs)
      × ((sweep address txs).total ≡ total_of (unspent_at address txs))
unfolding sweep
sweep_lem address txs =
    let h =
      sweep_all-Adds (spent_ids txs) (is_spent txs) address txs
        (record { from = []; total = pos 0 }) (spent_ids_lem txs) in
    (h.0, grind (int_laws, h.1))

-- A transaction that releases all the unspent money at the payment address: its one output goes to `to`,
-- with what the inputs hold less the fee.
pub record IsSweep (address to : Text) (fee : ℤ) (txs : List Transaction) (txn : Transaction)
    : Type 0 where
  pub inputs : txn.from ≡ unspent_at address txs
  pub amount : ℤ
  pub one_output : txn.to ≡ record { id = []; address = to; amount = amount } ∷ []
  pub conserves : amount +ℤ fee ≡ total_of txn.from

pub spend_to-IsSweep :
    (address to : Text) (fee : ℤ) (txs : List Transaction)
    → IsSweep address to fee txs (spend_to to fee (sweep address txs))
unfolding spend_to
spend_to-IsSweep address to fee txs =
    let (h, k) = sweep_lem address txs in
    record {
      inputs = h;
      amount = (sweep address txs).total -ℤ fee;
      one_output = refl;
      conserves = grind (int_laws, k ∙ sym (ap {B = ℤ} total_of h));
    }
