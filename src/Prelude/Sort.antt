-- ===== src/Prelude/Sort.antt =====
-- sort.SliceStable by a number, as the stable insertion sort that it refines.
use openbazaar.Prelude.Tests.{leb, if◌then◌else◌, Bool-cases}
use openbazaar.Prelude.Lists.{All}
use Prim.Native.Nat.{ℕ}
use mathlib.Core.Path.{◌≡◌}
use mathlib.Core.Bool.{true}
use mathlib.Core.Logic.{inl, inr}
use mathlib.Core.List.{List, [], ◌∷◌, Perm}
use mathlib.Core.List.Perm
use native.Mathlib.Omega.{arith}

module _ {A : Type 0} (key : A → ℕ) where
  -- The element goes before the first that has no smaller key.
  unfoldable pub insert_by : A → List A → List A
  insert_by x [] = x ∷ []
  insert_by x (y ∷ ys) = if leb (key x) (key y) then x ∷ y ∷ ys else y ∷ insert_by x ys

  unfoldable pub sort_by : List A → List A
  unfolding insert_by
  sort_by [] = []
  sort_by (x ∷ xs) = insert_by x (sort_by xs)

  -- Each element has a key that is at most that of all that follow it.
  pub IsSortedBy : List A → Type 0
  IsSortedBy [] = Unit
  IsSortedBy (x ∷ xs) = All (λ y. leb (key x) (key y) ≡ true) xs × IsSortedBy xs

  All-insert :
      (x y : A) (ys : List A)
      → leb (key y) (key x) ≡ true
      → All (λ z. leb (key y) (key z) ≡ true) ys
      → All (λ z. leb (key y) (key z) ≡ true) (insert_by x ys)
  unfolding insert_by
  All-insert x y [] h a = (h, tt)
  All-insert x y (z ∷ zs) h a = elim (Bool-cases (leb (key x) (key z))) [
    | inl e ↦ rw e (h, a)
    | inr e ↦ rw e (a.0, All-insert x y zs h a.1)
  ]

  All-weaken :
      (x y : A) (ys : List A)
      → leb (key x) (key y) ≡ true
      → All (λ z. leb (key y) (key z) ≡ true) ys
      → All (λ z. leb (key x) (key z) ≡ true) ys
  All-weaken x y [] h a = tt
  All-weaken x y (z ∷ zs) h a = (ground arith, All-weaken x y zs h a.1)

  insert_by-IsSortedBy : (x : A) (ys : List A) → IsSortedBy ys → IsSortedBy (insert_by x ys)
  unfolding insert_by IsSortedBy
  insert_by-IsSortedBy x [] s = (tt, tt)
  insert_by-IsSortedBy x (y ∷ ys) s = elim (Bool-cases (leb (key x) (key y))) [
    | inl e ↦ rw e ((e, All-weaken x y ys e s.0), s)
    | inr e ↦ rw e (All-insert x y ys (ground arith) s.0, insert_by-IsSortedBy x ys s.1)
  ]

  insert_by-Perm : (x : A) (ys : List A) → Perm (insert_by x ys) (x ∷ ys)
  unfolding insert_by
  insert_by-Perm x [] = Perm.refl _
  insert_by-Perm x (y ∷ ys) = elim (Bool-cases (leb (key x) (key y))) [
    | inl e ↦ rw e (Perm.refl _)
    | inr e ↦ rw e (Perm.trans (Perm.cons y (insert_by-Perm x ys)) (Perm.swap x y ys))
  ]

  pub sort_by_lem : (xs : List A) → IsSortedBy (sort_by xs) × Perm (sort_by xs) xs
  unfolding sort_by IsSortedBy
  sort_by_lem [] = (tt, Perm.refl [])
  sort_by_lem (x ∷ xs) =
      let (s, p) = sort_by_lem xs in
      (
        insert_by-IsSortedBy x (sort_by xs) s,
        Perm.trans (insert_by-Perm x (sort_by xs)) (Perm.cons x p),
      )
