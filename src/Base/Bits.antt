-- ===== src/Base/Bits.antt =====
-- `&` with a mask of low bits and `|` of fields that do not meet, as arithmetic.
use Prim.Native.Nat.{max, digits, bit_and-bitwise, bit_or-bitwise}
use native.Mathlib.Nat.{pow-suc, one-le-pow, add-zero}
use xstats.Base.{
  ℕ, zero, suc, ◌+◌, ◌-◌, ◌*◌, ◌/◌, ◌%◌, ◌^◌, ◌≤◌, ◌<◌, min, bit_and, bit_or, ◌≡◌, refl, ap, ◌∙◌,
  arith,
}

-- The native operations stand for a recursion on binary digits; its count of digits to go may
-- be any that the first number allows.
module _ (rest : ℕ → ℕ) (digit : ℕ → ℕ → ℕ) where
  any_count : (k l a b : ℕ) → a ≤ k → a ≤ l → digits rest digit k a b ≡ digits rest digit l a b
  any_count (suc k) (suc l) (suc a) b p q =
      ap (λ t. t * 2 + digit (suc a % 2) (b % 2))
        (any_count k l (suc a / 2) (b / 2) (omega arith) (omega arith))
  any_count (suc k) (suc l) zero b p q = refl
  any_count (suc k) zero zero b p q = refl
  any_count (suc k) zero (suc a) b p q = absurd (omega arith)
  any_count zero (suc l) zero b p q = refl
  any_count zero (suc l) (suc a) b p q = absurd (omega arith)
  any_count zero zero a b p q = refl

-- An operation on the binary digits of two numbers, one pair of digits at a time.
record IsDigitwise (op digit : ℕ → ℕ → ℕ) : Type 0 where
  at_zero : op 0 0 ≡ 0
  lowest : (a b : ℕ) → op a b ≡ op (a / 2) (b / 2) * 2 + digit (a % 2) (b % 2)

or_lowest : (a b : ℕ) → bit_or a b ≡ bit_or (a / 2) (b / 2) * 2 + max (a % 2) (b % 2)
or_lowest zero b = omega (arith, bit_or-bitwise 0 b, bit_or-bitwise 0 (b / 2))
or_lowest (suc a) b = omega (
  arith,
  bit_or-bitwise (suc a) b,
  bit_or-bitwise (suc a / 2) (b / 2),
  any_count (λ y. y) max a (suc a / 2) (suc a / 2) (b / 2) (omega arith) (omega arith),
)

and_lowest : (a b : ℕ) → bit_and a b ≡ bit_and (a / 2) (b / 2) * 2 + min (a % 2) (b % 2)
and_lowest zero b = omega (arith, bit_and-bitwise 0 b, bit_and-bitwise 0 (b / 2))
and_lowest (suc a) b = omega (
  arith,
  bit_and-bitwise (suc a) b,
  bit_and-bitwise (suc a / 2) (b / 2),
  any_count (λ y. 0) min a (suc a / 2) (suc a / 2) (b / 2) (omega arith) (omega arith),
)

or_IsDigitwise : IsDigitwise bit_or max
or_IsDigitwise = record { at_zero = refl; lowest = or_lowest }

and_IsDigitwise : IsDigitwise bit_and min
and_IsDigitwise = record { at_zero = refl; lowest = and_lowest }

double : (q k : ℕ) → q * 2 ^ suc k ≡ q * 2 ^ k * 2
double q k = omega (arith, ap (λ (t : ℕ). q * t) (pow-suc 2 k))

-- Such an operation acts on the bits from `k` up and on those below `k` apart.
module _ {op digit : ℕ → ℕ → ℕ} (d : IsDigitwise op digit) where
  op_split :
      (k q s r t : ℕ)
      → r < 2 ^ k
      → t < 2 ^ k
      → op (q * 2 ^ k + r) (s * 2 ^ k + t) ≡ op q s * 2 ^ k + op r t
  op_split zero q s zero zero hr ht = ground (arith, d.at_zero)
  op_split zero q s zero (suc t) hr ht = absurd (omega arith)
  op_split zero q s (suc r) t hr ht = absurd (omega arith)
  op_split (suc k) q s r t hr ht = ground (
    arith,
    d.lowest (q * 2 ^ suc k + r) (s * 2 ^ suc k + t),
    d.lowest r t,
    double q k,
    double s k,
    double (op q s) k,
    pow-suc 2 k,
    op_split k q s (r / 2) (t / 2) (omega (arith, pow-suc 2 k)) (omega (arith, pow-suc 2 k)),
  )

-- `a | 0`
bit_or-zero : (k a : ℕ) → a ≤ k → bit_or a 0 ≡ a
bit_or-zero k zero h = refl
bit_or-zero zero (suc a) h = absurd (omega arith)
bit_or-zero (suc k) (suc a) h =
    omega (arith, or_lowest (suc a) 0, bit_or-zero k (suc a / 2) (omega arith))

zero-bit_or : (b : ℕ) → bit_or 0 b ≡ b
zero-bit_or b = bit_or-bitwise 0 b

bit_and-zero : (k a : ℕ) → a ≤ k → bit_and a 0 ≡ 0
bit_and-zero k zero h = refl
bit_and-zero zero (suc a) h = absurd (omega arith)
bit_and-zero (suc k) (suc a) h =
    omega (arith, and_lowest (suc a) 0, bit_and-zero k (suc a / 2) (omega arith))

-- `(q << k) | r` is a sum where `r` fits `k` bits.
pub bit_or_fields : (k q r : ℕ) → r < 2 ^ k → bit_or (q * 2 ^ k) r ≡ q * 2 ^ k + r
bit_or_fields k q r h = ground (
  arith,
  op_split or_IsDigitwise k q 0 0 r (one-le-pow k 2 (omega arith)) h,
  add-zero (q * 2 ^ k),
  bit_or-zero q q (omega arith),
  zero-bit_or r,
)

-- The low `k` bits of `a | b` come from those of `a` and `b`, and the others from the others.
pub bit_or_split :
    (k a b : ℕ)
    → bit_or a b ≡ bit_or (a / 2 ^ k) (b / 2 ^ k) * 2 ^ k + bit_or (a % 2 ^ k) (b % 2 ^ k)
bit_or_split k a b = ground (
  arith,
  one-le-pow k 2,
  op_split or_IsDigitwise k (a / 2 ^ k) (b / 2 ^ k) (a % 2 ^ k) (b % 2 ^ k),
)

ones_and : (k r : ℕ) → r < 2 ^ k → bit_and r (2 ^ k - 1) ≡ r
ones_and zero zero h = refl
ones_and zero (suc r) h = absurd (omega arith)
ones_and (suc k) r h = ground (
  arith,
  and_lowest r (2 ^ suc k - 1),
  pow-suc 2 k,
  one-le-pow k 2,
  ones_and k (r / 2) (omega (arith, pow-suc 2 k)),
)

-- A mask of `k` ones keeps the remainder by `2 ^ k`.
pub bit_and_ones : (k a : ℕ) → bit_and a (2 ^ k - 1) ≡ a % 2 ^ k
bit_and_ones k a = ground (
  arith,
  one-le-pow k 2,
  op_split and_IsDigitwise k (a / 2 ^ k) 0 (a % 2 ^ k) (2 ^ k - 1),
  bit_and-zero (a / 2 ^ k) (a / 2 ^ k) (omega arith),
  ones_and k (a % 2 ^ k),
)

-- The low `k` bits of `a & b` come from those of `a` and `b`, and the others from the others.
pub bit_and_split :
    (k a b : ℕ)
    → bit_and a b ≡ bit_and (a / 2 ^ k) (b / 2 ^ k) * 2 ^ k + bit_and (a % 2 ^ k) (b % 2 ^ k)
bit_and_split k a b = ground (
  arith,
  one-le-pow k 2,
  op_split and_IsDigitwise k (a / 2 ^ k) (b / 2 ^ k) (a % 2 ^ k) (b % 2 ^ k),
)

-- Where the low `k` bits of `a` are clear, those of `a | b` are those of `b`.
pub bit_or_clear :
    (k a b : ℕ) → a % 2 ^ k ≡ 0 → bit_or a b ≡ bit_or (a / 2 ^ k) (b / 2 ^ k) * 2 ^ k + b % 2 ^ k
bit_or_clear k a b h = bit_or_split k a b ∙ low
  where
    low :
        bit_or (a / 2 ^ k) (b / 2 ^ k) * 2 ^ k + bit_or (a % 2 ^ k) (b % 2 ^ k)
        ≡ bit_or (a / 2 ^ k) (b / 2 ^ k) * 2 ^ k + b % 2 ^ k
    low = rw (h, zero-bit_or (b % 2 ^ k)) refl

-- `a | b` needs no more bits than `a` and `b`.
pub bit_or-lt : (k a b : ℕ) → a < 2 ^ k → b < 2 ^ k → bit_or a b < 2 ^ k
bit_or-lt zero zero zero h l = omega arith
bit_or-lt zero zero (suc b) h l = absurd (omega arith)
bit_or-lt zero (suc a) b h l = absurd (omega arith)
bit_or-lt (suc k) a b h l = ground (
  arith,
  or_lowest a b,
  pow-suc 2 k,
  bit_or-lt k (a / 2) (b / 2) (omega (arith, pow-suc 2 k)) (omega (arith, pow-suc 2 k)),
)
