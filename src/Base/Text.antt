-- ===== src/Base/Text.antt =====
-- Text as code points, and the decimal numerals of printf's %llu, %u and %d.
use Prim.Native.Char.{code}
use Prim.Native.String.{String}
use native.Mathlib.Nat.{pow-suc}
use xstats.Base.{
  ℕ, zero, suc, ◌+◌, ◌-◌, ◌*◌, ◌/◌, ◌%◌, ◌^◌, ◌≤◌, ◌<◌, ◌≡◌, refl, List, [], ◌∷◌, ◌++◌, arith, ltb,
  if◌then◌else◌, length, length-append,
}
use xstats.Base.Int.{ℤ, pos, negsuc, Within}

abbrev pub Text : Type 0
Text = List ℕ

abbrev pub codes : String → Text
codes String.[] = []
codes (String.◌∷◌ c s) = code c ∷ codes s

-- The decimal numeral of a number below 10 ^ fuel.
pub digits : ℕ → ℕ → Text
digits zero n = []
digits (suc fuel) n =
    let more = digits fuel (n / 10) ++ ((b'0' + n % 10) ∷ []) in
    if ltb n 10 then (b'0' + n) ∷ [] else more

-- A 64-bit number has at most 20 digits.
unfoldable pub show_ℕ : ℕ → Text
unfolding digits
show_ℕ n = digits 20 n

unfoldable pub show_ℤ : ℤ → Text
unfolding show_ℕ
show_ℤ (pos n) = show_ℕ n
show_ℤ (negsuc n) = b'-' ∷ show_ℕ (n + 1)

-- The number that a run of digits stands for.
pub read_from : ℕ → Text → ℕ
read_from acc [] = acc
read_from acc (c ∷ cs) = read_from (acc * 10 + (c - b'0')) cs

unfoldable pub read_ℕ : Text → ℕ
unfolding read_from
read_ℕ = read_from 0

read_from-append : (acc : ℕ) (s t : Text) → read_from acc (s ++ t) ≡ read_from (read_from acc s) t
unfolding read_from
read_from-append acc [] t = refl
read_from-append acc (c ∷ cs) t = read_from-append (acc * 10 + (c - b'0')) cs t

read-digits : (fuel n : ℕ) → n < 10 ^ fuel → read_from 0 (digits fuel n) ≡ n
unfolding digits read_from
read-digits zero n h = omega arith
read-digits (suc fuel) n h = ground (
  arith,
  read_from-append 0 (digits fuel (n / 10)) ((b'0' + n % 10) ∷ []),
  read-digits fuel (n / 10) (omega (arith, pow-suc 10 fuel)),
)

-- The numeral printed for a 64-bit number reads back as that number.
pub read-show_ℕ : (n : ℕ) → n < 2 ^ 64 → read_ℕ (show_ℕ n) ≡ n
unfolding read_ℕ show_ℕ
read-show_ℕ n h = read-digits 20 n (omega arith)

pub length-digits-le : (k fuel n : ℕ) → n < 10 ^ suc k → length (digits fuel n) ≤ suc k
unfolding digits
length-digits-le k zero n h = omega arith
length-digits-le zero (suc fuel) n h = ground arith
length-digits-le (suc k) (suc fuel) n h = ground (
  arith,
  length-append (digits fuel (n / 10)) ((b'0' + n % 10) ∷ []),
  length-digits-le k fuel (n / 10) (omega (arith, pow-suc 10 (suc k))),
)

length-digits-fuel : (fuel n : ℕ) → length (digits fuel n) ≤ fuel
unfolding digits
length-digits-fuel zero n = omega arith
length-digits-fuel (suc fuel) n = ground (
  arith,
  length-append (digits fuel (n / 10)) ((b'0' + n % 10) ∷ []),
  length-digits-fuel fuel (n / 10),
)

pub length-show_ℕ-le : (n : ℕ) → length (show_ℕ n) ≤ 20
unfolding show_ℕ
length-show_ℕ-le n = length-digits-fuel 20 n

-- A number of at most eight digits.
pub length-show_ℕ_short : (n : ℕ) → n < 10 ^ 8 → length (show_ℕ n) ≤ 8
unfolding show_ℕ
length-show_ℕ_short n h = length-digits-le 7 20 n h

pub length-show_ℤ : (a : ℤ) → Within (10 ^ 8) a → length (show_ℤ a) ≤ 9
unfolding show_ℤ
length-show_ℤ (pos n) h = omega (arith, length-show_ℕ_short n h.0)
length-show_ℤ (negsuc n) h = omega (arith, length-show_ℕ_short (n + 1) (omega arith))

-- Two digits are enough below 100, and three are needed from there on.
pub length-show_ℕ_small : (n : ℕ) → n < 100 → length (show_ℕ n) ≤ 2
unfolding show_ℕ
length-show_ℕ_small n h = length-digits-le 1 20 n (omega arith)

pub length-show_ℕ_large : (n : ℕ) → 100 ≤ n → 3 ≤ length (show_ℕ n)
unfolding show_ℕ digits
length-show_ℕ_large n h = ground (
  arith,
  length-append (digits 19 (n / 10)) ((b'0' + n % 10) ∷ []),
  length-append (digits 18 (n / 10 / 10)) ((b'0' + n / 10 % 10) ∷ []),
  length-append (digits 17 (n / 10 / 10 / 10)) ((b'0' + n / 10 / 10 % 10) ∷ []),
)
