-- ===== src/Base/Bytes.antt =====
-- A word as the bytes that a union lays over it, the first lowest.
use xstats.Base.{
  ℕ, zero, suc, ◌+◌, ◌*◌, ◌/◌, ◌%◌, ◌^◌, ◌<◌, ◌≡◌, refl, ap, ◌∙◌, List, [], ◌∷◌, arith, get_or, All,
}

-- Bytes side by side.
abbrev pub pack : List ℕ → ℕ
pack [] = 0
pack (b ∷ bs) = b + 2 ^ 8 * pack bs

-- The `i`th byte of a word.
abbrev pub byte : ℕ → ℕ → ℕ
byte zero w = w % 2 ^ 8
byte (suc i) w = byte i (w / 2 ^ 8)

byte-zero : (i : ℕ) → byte i 0 ≡ 0
byte-zero zero = refl
byte-zero (suc i) = byte-zero i

-- Bytes that are put side by side are read back.
pub byte-pack : (bs : List ℕ) (i : ℕ) → All (λ b. b < 2 ^ 8) bs → byte i (pack bs) ≡ get_or bs i 0
byte-pack [] i h = byte-zero i
byte-pack (b ∷ bs) zero h = omega (arith, h.0)
byte-pack (b ∷ bs) (suc i) h =
    let rest : (b + 2 ^ 8 * pack bs) / 2 ^ 8 ≡ pack bs = omega (arith, h.0) in
    ap (byte i) rest ∙ byte-pack bs i h.1
