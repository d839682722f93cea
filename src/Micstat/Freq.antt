-- ===== src/Micstat/Freq.antt =====
-- The clock of micstat: its base, found once from a scratch register, and the counter freq.
use xstats.Base.{
  ℕ, zero, suc, ◌-◌, ◌*◌, ◌/◌, ◌%◌, ◌^◌, bit_and, ◌≤◌, ◌<◌, ◌≡◌, refl, ap, ap₂, ◌∙◌, Bool-cases,
  lt→ltb, ◌⊎◌, inl, inr, Bool, true, false, ◌||◌, arith, u32, ltb, ◌>>>◌, ◌<<<◌, if◌then◌else◌,
}
use xstats.Base.Int.{mul-lt-mul}
use xstats.Base.Bits.{bit_and_ones, bit_and_split}

-- What the code uses of struct mic_pll_data.
pub record PllData : Type 0 where
  pub bclk : ℕ
  pub ffpos : ℕ

pub pll_data_k1om : PllData
pll_data_k1om = record { bclk = 200000; ffpos = 8 }

-- MIN_ICCDIV and MAX_ICCDIV
abbrev pub min_iccdiv : ℕ
min_iccdiv = 18

abbrev pub max_iccdiv : ℕ
max_iccdiv = 22

-- `mapped` tells whether mic_sbox_mmio_va is set, and `scratch4` is the register SBOX_SCRATCH4.
pub get_baseclk : (mapped : Bool) (scratch4 : ℕ) → ℕ
get_baseclk mapped scratch4 =
    let iccdiv = bit_and (scratch4 >>> 25) 0x1f in
    if mapped
    then (if ltb iccdiv min_iccdiv || ltb max_iccdiv iccdiv then 0 else 4000 * 1000 / iccdiv)
    else 0

-- The end of micstat_init.
pub set_baseclk : ℕ → PllData → PllData
set_baseclk baseclk pll = if ltb 0 baseclk then record pll { bclk = baseclk } else pll

pub ff_from_code : (code ffpos : ℕ) → ℕ
ff_from_code code ffpos = 8 / (1 <<< bit_and (code >>> ffpos) 3)

-- `~x` of an unsigned int.
abbrev pub not32 : ℕ → ℕ
not32 x = 2 ^ 32 - 1 - x

pub fb_from_code : (code ffpos : ℕ) → ℕ
fb_from_code code ffpos = bit_and code (not32 (u32 (not32 0 <<< ffpos)))

pub freq_from_code : (baseclk code ffpos : ℕ) → ℕ
freq_from_code baseclk code ffpos = baseclk * fb_from_code code ffpos / ff_from_code code ffpos

-- K1OM_MCLK_2_FREQ
pub mclk_to_freq : ℕ → ℕ
mclk_to_freq mclk = bit_and mclk 0x7fe >>> 1

-- `mclkratio` is the field of SBOX_CURRENTRATIO.
pub freq_restart : PllData → (mclkratio : ℕ) → ℕ
freq_restart pll mclkratio = freq_from_code pll.bclk (mclk_to_freq mclkratio) pll.ffpos

-- The clock of a loaded module: that of the table, or that of a divider in its range.
abbrev pub IsClock : PllData → Type 0
IsClock pll = (pll.ffpos ≡ 8) × (181818 ≤ pll.bclk) × (pll.bclk ≤ 222222)

divider_range : (d : ℕ) → 18 ≤ d → d ≤ 22 → (181818 ≤ 4000000 / d) × (4000000 / d ≤ 222222)
divider_range d low high =
    let cases : (d ≡ 18) ⊎ (d ≡ 19) ⊎ (d ≡ 20) ⊎ (d ≡ 21) ⊎ (d ≡ 22) = omega arith in
    elim cases [
      | inl e ↦ rw e (omega arith)
      | inr (inl e) ↦ rw e (omega arith)
      | inr (inr (inl e)) ↦ rw e (omega arith)
      | inr (inr (inr (inl e))) ↦ rw e (omega arith)
      | inr (inr (inr (inr e))) ↦ rw e (omega arith)
    ]

abbrev clock_of : ℕ → ℕ
clock_of d = if ltb d 18 || ltb 22 d then 0 else 4000000 / d

clock_of-IsClock :
    (d : ℕ)
    → let pll = set_baseclk (clock_of d) pll_data_k1om in
      IsClock pll × ((pll.bclk ≡ 4000000 / 20) ⊎ (pll.bclk ≡ 4000000 / d))
unfolding set_baseclk pll_data_k1om
clock_of-IsClock d = elim (Bool-cases (ltb d 18 || ltb 22 d)) [
  | inl out ↦ rw out ((refl, omega arith, omega arith), inl refl)
  | inr inside ↦
      let range = divider_range d (ground arith) (ground arith) in
      rw (inside, lt→ltb 0 (4000000 / d) (omega (arith, range.0)))
        ((refl, range.0, range.1), inr refl)
]

-- Whatever the scratch register holds, loading leaves a clock of 4000000 by a divider of 18 to 22:
-- the register's where it is in the range, and 20 otherwise.
pub set_baseclk-IsClock :
    (mapped : Bool) (scratch4 : ℕ)
    → let pll = set_baseclk (get_baseclk mapped scratch4) pll_data_k1om in
      IsClock pll
      × ((pll.bclk ≡ 4000000 / 20)
          ⊎ ((mapped ≡ true) × (pll.bclk ≡ 4000000 / (scratch4 / 2 ^ 25 % 2 ^ 5))))
unfolding get_baseclk
set_baseclk-IsClock true scratch4 = rw (bit_and_ones 5 (scratch4 / 2 ^ 25)) (
    let (clock, which) = clock_of-IsClock (scratch4 / 2 ^ 25 % 2 ^ 5) in
    (clock, elim which [ inl default ↦ inl default | inr found ↦ inr (refl, found) ]))
set_baseclk-IsClock false scratch4 =
    unfold set_baseclk pll_data_k1om in ((refl, omega arith, omega arith), inl refl)

power_of_two : (k : ℕ) → k < 4 → 8 / (1 <<< k) ≡ 2 ^ (3 - k)
power_of_two zero h = refl
power_of_two (suc zero) h = refl
power_of_two (suc (suc zero)) h = refl
power_of_two (suc (suc (suc zero))) h = refl
power_of_two (suc (suc (suc (suc k)))) h = absurd (omega arith)

mclk_to_freq_lem : (mclk : ℕ) → mclk_to_freq mclk ≡ mclk / 2 % 2 ^ 10
unfolding mclk_to_freq
mclk_to_freq_lem mclk =
    omega (arith, bit_and_split 1 mclk 0x7fe, bit_and_ones 10 (mclk / 2), bit_and_ones 0 (mclk % 2))

ff_from_code_lem : (code : ℕ) → ff_from_code code 8 ≡ 2 ^ (3 - code / 2 ^ 8 % 4)
unfolding ff_from_code
ff_from_code_lem code =
    ap (λ k. 8 / (1 <<< k)) (bit_and_ones 2 (code / 2 ^ 8))
    ∙ power_of_two (code / 2 ^ 8 % 4) (omega arith)

fb_from_code_lem : (code : ℕ) → fb_from_code code 8 ≡ code % 2 ^ 8
unfolding fb_from_code
fb_from_code_lem code = bit_and_ones 8 code

clock_bound : (bclk fb : ℕ) → bclk ≤ 222222 → fb < 2 ^ 8 → bclk * fb < 2 ^ 31
clock_bound bclk fb h k = omega (arith, mul-lt-mul bclk fb 222223 (2 ^ 8) (omega arith) k)

-- On a loaded module the frequency is the base clock times the feedback ratio, bits 8 to 1 of the
-- field, by two to the third less its bits 10 and 9; nothing on the way leaves the range of an int.
pub freq_restart_lem :
    (pll : PllData) (mclkratio : ℕ)
    → IsClock pll
    → let fb = mclkratio / 2 % 2 ^ 8 in
      (freq_restart pll mclkratio ≡ pll.bclk * fb / 2 ^ (3 - mclkratio / 2 ^ 9 % 4))
      × (pll.bclk * fb < 2 ^ 31)
unfolding freq_restart freq_from_code
freq_restart_lem pll mclkratio (pos, low, high) =
    let code = mclk_to_freq mclkratio in
    let fb : fb_from_code code 8 ≡ mclkratio / 2 % 2 ^ 8 =
      omega (arith, fb_from_code_lem code, mclk_to_freq_lem mclkratio) in
    let shift : code / 2 ^ 8 % 4 ≡ mclkratio / 2 ^ 9 % 4 =
      omega (arith, mclk_to_freq_lem mclkratio) in
    let ff = ff_from_code_lem code ∙ ap (λ k. 2 ^ (3 - k)) shift in
    (
      ap (freq_from_code pll.bclk code) pos ∙ ap₂ (λ a b. pll.bclk * a / b) fb ff,
      clock_bound pll.bclk (mclkratio / 2 % 2 ^ 8) high (omega arith),
    )
