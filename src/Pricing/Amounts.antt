-- ===== src/Pricing/Amounts.antt =====
-- iwallet.Amount: the product of two amounts, and the laws of sums.
use openbazaar.Prelude.{◌+◌, ◌*◌, ◌≡◌, arith}
use openbazaar.Prelude.Int.{ℤ, pos, negsuc, pos_part, neg_part, sub_ℕ}

infixl 70 ◌*ℤ◌
unfoldable pub ◌*ℤ◌ : ℤ → ℤ → ℤ
a *ℤ b =
    sub_ℕ (pos_part a * pos_part b + neg_part a * neg_part b)
      (pos_part a * neg_part b + neg_part a * pos_part b)

pub *ℤ_one : (a : ℤ) → a *ℤ pos 1 ≡ a
unfolding ◌*ℤ◌
*ℤ_one (pos n) = ground arith
*ℤ_one (negsuc n) = ground arith
