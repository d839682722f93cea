-- ===== src/Micstat/Smc.antt =====
-- GET_BITS of micstat/micstat.h, and the access to the registers of the SMC.
use xstats.Base.{
  ℕ, ◌+◌, ◌-◌, ◌*◌, ◌/◌, ◌%◌, ◌^◌, bit_and, ◌≡◌, ◌∙◌, ap, List, ◌∷◌, Option, none, some, arith,
  length, u8, Bool, if◌then◌else◌, ◌>>>◌, ◌<<<◌,
}
use xstats.Base.Bits.{bit_and_ones}

-- GET_BITS
unfoldable pub get_bits : ℕ → ℕ → ℕ → ℕ
get_bits l r v = bit_and (v >>> r) ((1 <<< (l - r + 1)) - 1)

-- Bits `l` down to `r`.
pub get_bits_lem : (l r v : ℕ) → get_bits l r v ≡ v / 2 ^ r % 2 ^ (l - r + 1)
unfolding get_bits
get_bits_lem l r v =
    let mask : 1 * 2 ^ (l - r + 1) ≡ 2 ^ (l - r + 1) = omega arith in
    ap (λ t. bit_and (v / 2 ^ r) (t - 1)) mask ∙ bit_and_ones (l - r + 1) (v / 2 ^ r)

-- What the bus answers: `smc n reg` is the word that comes in transaction `n`, a read of register
-- `reg`, or `none` where not four bytes come.
abbrev pub Bus : Type 0
Bus = ℕ → ℕ → Option ℕ

-- MR_SMC_FW_VERSION
abbrev pub fw_version : ℕ
fw_version = 0x11

-- The return value, `*val`, and the registers read so far, the last one first.
pub record Read : Type 0 where
  pub status : ℕ
  pub val : ℕ
  pub asked : List ℕ

-- A read that fails is followed by one of the firmware version, whose answer is not looked at.
pub mr_smc_rd : Bus → ℕ → List ℕ → Read
mr_smc_rd smc reg asked = elim (smc (length asked) reg) [
  | some v ↦ record { status = 0; val = v; asked = reg ∷ asked }
  | none ↦ record { status = 1; val = 0; asked = fw_version ∷ reg ∷ asked }
]

-- A write, of which `written n reg word` tells whether transaction `n` took four bytes: the return
-- value is 0 also where it did not.
pub mr_smc_wr : (written : ℕ → ℕ → ℕ → Bool) → ℕ → (word : ℕ) → List ℕ → ℕ × List ℕ
mr_smc_wr written reg word asked =
    if written (length asked) reg word then (0, reg ∷ asked) else (0, fw_version ∷ reg ∷ asked)

-- What a counter takes a register for, where the bus gives the same answers all the time.
abbrev pub reading : (ℕ → Option ℕ) → ℕ → ℕ
reading answers reg = elim (answers reg) [ none ↦ 0 | some v ↦ v ]

pub mr_smc_rd-val :
    (answers : ℕ → Option ℕ) (reg : ℕ) (asked : List ℕ)
    → (mr_smc_rd (λ n. answers) reg asked).val ≡ reading answers reg
unfolding mr_smc_rd
mr_smc_rd-val answers reg asked = ground arith

pub smc_byte :
    (answers : ℕ → Option ℕ) (reg : ℕ) (asked : List ℕ)
    → u8 (get_bits 15 0 (mr_smc_rd (λ n. answers) reg asked).val) ≡ reading answers reg % 2 ^ 8
smc_byte answers reg asked = omega (
  arith,
  get_bits_lem 15 0 (mr_smc_rd (λ n. answers) reg asked).val,
  mr_smc_rd-val answers reg asked,
)
