-- ===== src/Listings/Loops.antt =====
-- Loops of core/listings.go over a list whose body returns at its first error, and the tests they share.
use openbazaar.Prelude.{
  ℕ, Bool, false, List, [], ◌∷◌, ◌≡◌, ◌≤◌, len, ltb, str_eq, exists_in, All, IsApart, refl, arith,
}
use openbazaar.Exec.{Result, ok, bind_result, fail_if, validation_error}
use openbazaar.Exec.Invert.{bind_result-ok}
use openbazaar.Proto.Common.{Text}

-- for _, x := range xs { check x }
unfoldable pub each {ℓ} : {A : Type ℓ} → (A → Result (Unit {0})) → List A → Result (Unit {0})
each check [] = ok tt
each check (x ∷ xs) = bind_result (check x) (λ _. each check xs)

pub each-ok {ℓ} :
    {A : Type ℓ} (check : A → Result (Unit {0})) (xs : List A)
    → each check xs ≡ ok tt
    → All (λ x. check x ≡ ok tt) xs
unfolding each
each-ok check [] done = tt
each-ok check (x ∷ xs) done =
    let (_, h, k) = bind_result-ok (check x) _ done in (h, each-ok check xs k)

-- What holds of each element that the body lets pass.
pub All-map {ℓ κ μ} :
    {A : Type ℓ} (P : A → Type κ) (Q : A → Type μ)
    → ((x : A) → P x → Q x)
    → (xs : List A) → All P xs
    → All Q xs
All-map P Q f [] h = tt
All-map P Q f (x ∷ xs) h = (f x h.0, All-map P Q f xs h.1)

-- `return ErrTooManyCharacters`
abbrev pub at_most : ℕ → Text → Result (Unit {0})
at_most n t = fail_if (ltb n (len t)) validation_error

-- `return ErrMissingField`
abbrev pub present : Text → Result (Unit {0})
present t = fail_if (str_eq t "") validation_error

-- The name is in the list of those seen.
abbrev pub has_name : Text → List Text → Bool
has_name t ts = exists_in (λ s. str_eq s t) ts

pub none-exists {ℓ} :
    {A : Type ℓ} (p : A → Bool) (xs : List A) → All (λ x. p x ≡ false) xs → exists_in p xs ≡ false
none-exists p [] h = refl
none-exists p (x ∷ xs) h = ground (arith, none-exists p xs)

-- A loop that stops at an element which `hit`s what it has seen: `run s xs` says that it ends well from
-- the state `s`, and a step sees its element.
pub run-IsApart {ℓ κ} :
    {S A : Type ℓ} (run : S → List A → Type κ) (hit : S → A → Bool) (clash : A → A → Bool)
    → ((s : S) (x : A) (xs : List A)
        → run s (x ∷ xs)
        → (t : S) × (hit s x ≡ false)
          × run t xs
          × ((y : A) → hit t y ≡ false → (hit s y ≡ false) × (clash x y ≡ false)))
    → (s : S) (xs : List A) → run s xs
    → All (λ x. hit s x ≡ false) xs × IsApart clash xs
run-IsApart run hit clash step s [] h = (tt, tt)
run-IsApart run hit clash step s (x ∷ xs) h =
    let (t, fresh, rest, seen) = step s x xs h in
    let (all, apart) = run-IsApart run hit clash step t xs rest in
    (
      (fresh, All-map (λ y. hit t y ≡ false) (λ y. hit s y ≡ false) (λ y e. (seen y e).0) xs all),
      (
        none-exists (clash x) xs
            (All-map (λ y. hit t y ≡ false) (λ y. clash x y ≡ false) (λ y e. (seen y e).1) xs all),
        apart,
      ),
    )

pub not_over : (n m : ℕ) → ltb n m ≡ false → m ≤ n
not_over n m h = ground arith
