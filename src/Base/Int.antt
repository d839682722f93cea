-- ===== src/Base/Int.antt =====
-- Signed integers over the native numbers, under the library's names.
use xstats.Base.{ℕ, suc, ◌+◌, ◌-◌, ◌*◌, ◌<◌, arith, leb, if◌then◌else◌}

-- `negsuc n` is -(n + 1).
pub data ℤ : Type 0 where
  pos : ℕ → ℤ
  negsuc : ℕ → ℤ

abbrev pub pos_part : ℤ → ℕ
pos_part (pos n) = n
pos_part (negsuc n) = 0

abbrev pub neg_part : ℤ → ℕ
neg_part (pos n) = 0
neg_part (negsuc n) = suc n

-- a - b, as an integer.
abbrev pub sub_ℕ : ℕ → ℕ → ℤ
sub_ℕ a b = if leb b a then pos (a - b) else negsuc (b - a - 1)

infixl 65 ◌+ℤ◌
unfoldable pub ◌+ℤ◌ : ℤ → ℤ → ℤ
a +ℤ b = sub_ℕ (pos_part a + pos_part b) (neg_part a + neg_part b)

-- The product of an integer and a number.
infixl 70 ◌*ℤ◌
unfoldable pub ◌*ℤ◌ : ℤ → ℕ → ℤ
a *ℤ n = sub_ℕ (pos_part a * n) (neg_part a * n)

-- `a` lies strictly between -n and n.
abbrev pub Within : ℕ → ℤ → Type 0
Within n a = (pos_part a < n) × (neg_part a < n)

pub +ℤ-Within : (m n : ℕ) (a b : ℤ) → Within m a → Within n b → Within (m + n) (a +ℤ b)
unfolding ◌+ℤ◌
+ℤ-Within m n a b p q = ground arith

pub mul-lt-mul : (a b m n : ℕ) → a < m → b < n → a * b < m * n
mul-lt-mul a b m n p q = grind arith

pub *ℤ-Within : (m n : ℕ) (a : ℤ) (k : ℕ) → Within m a → k < n → Within (m * n) (a *ℤ k)
unfolding ◌*ℤ◌
*ℤ-Within m n (pos a) k p q = ground (arith, mul-lt-mul a k m n)
*ℤ-Within m n (negsuc a) k p q = ground (arith, mul-lt-mul (suc a) k m n)
