-- ===== src/Xstat/Msr/Temperature.antt =====
-- The fields of a temperature sample.
use xstats.Base.{
  ℕ, ◌+◌, ◌-◌, ◌*◌, ◌/◌, ◌%◌, ◌^◌, ◌≤◌, ◌<◌, bit_and, bit_or, ◌≡◌, refl, arith, u32, sub32, ◌<<<◌,
}
use xstats.Base.Bits.{bit_and_ones, bit_or_clear, bit_or_fields, bit_or-lt}
use xstats.Xstat.World.{Hardware, package_therm_status, temperature_target}
use xstats.Xstat.Msr.{sign_extend, temp_restart}

-- Bits 23:16 and 15:8 of MSR_IA32_TEMPERATURE_TARGET and bits 22:16 of the status.
abbrev pub tjmax_of : Hardware → ℕ
tjmax_of hw = hw.msr temperature_target / 2 ^ 16 % 256

abbrev pub offset_of : Hardware → ℕ
offset_of hw = hw.msr temperature_target / 2 ^ 8 % 256

abbrev pub readout_of : Hardware → ℕ
readout_of hw = hw.msr package_therm_status / 2 ^ 16 % 128

-- The packed word, before its sign is extended.
packed : ℕ → ℕ → ℕ → ℕ
packed tjmax max tpkg = bit_or (bit_or (u32 (tjmax <<< 24)) (u32 (max <<< 16))) tpkg

temp_restart-packed :
    (hw : Hardware)
    → temp_restart hw
      ≡ sign_extend (
          packed
            (tjmax_of hw)
            (sub32 (tjmax_of hw) (offset_of hw))
            (sub32 (tjmax_of hw) (readout_of hw)))
unfolding temp_restart packed
temp_restart-packed hw =
    rw
      (
        bit_and_ones 8 (hw.msr temperature_target / 2 ^ 16),
        bit_and_ones 8 (hw.msr temperature_target / 2 ^ 8),
        bit_and_ones 7 (hw.msr package_therm_status / 2 ^ 16),
      )
      refl

low_byte-packed : (tjmax max tpkg : ℕ) → packed tjmax max tpkg % 256 ≡ tpkg % 256
unfolding packed
low_byte-packed tjmax max tpkg =
    let a = u32 (tjmax <<< 24) in
    let b = u32 (max <<< 16) in omega (arith, bit_or_clear 8 a b, bit_or_clear 8 (bit_or a b) tpkg)

sign_extend_low : (w : ℕ) → sign_extend w % 256 ≡ w % 256
sign_extend_low w = ground arith

-- Whatever the registers hold, the low byte that is printed is tjmax less the readout, modulo 256.
pub tpkg_lem :
    (hw : Hardware) → bit_and (temp_restart hw) 0xff ≡ (tjmax_of hw + 256 - readout_of hw) % 256
tpkg_lem hw = omega (
  arith,
  bit_and_ones 8 (temp_restart hw),
  temp_restart-packed hw,
  sign_extend_low (
      packed (tjmax_of hw) (sub32 (tjmax_of hw) (offset_of hw))
        (sub32 (tjmax_of hw) (readout_of hw))),
  low_byte-packed (tjmax_of hw) (sub32 (tjmax_of hw) (offset_of hw))
      (sub32 (tjmax_of hw) (readout_of hw)),
)

packed_small :
    (tjmax max tpkg : ℕ)
    → tjmax < 128
    → max < 128
    → tpkg < 128
    → packed tjmax max tpkg ≡ tjmax * 2 ^ 24 + max * 2 ^ 16 + tpkg
unfolding packed
packed_small tjmax max tpkg h k l =
    ground (arith, bit_or_fields 24 tjmax (max * 2 ^ 16), bit_or_fields 16 (tjmax * 256 + max) tpkg)

sign_extend_small : (w : ℕ) → w < 2 ^ 31 → sign_extend w ≡ w
sign_extend_small w h = ground arith

extended_small :
    (tjmax max tpkg : ℕ)
    → tjmax < 128
    → max < 128
    → tpkg < 128
    → sign_extend (packed tjmax max tpkg) ≡ tjmax * 2 ^ 24 + max * 2 ^ 16 + tpkg
extended_small tjmax max tpkg h k l =
    rw (packed_small tjmax max tpkg h k l) (sign_extend_small _ (omega arith))

-- Where tjmax is below 128 and neither difference is negative, the sample holds the three fields
-- side by side.
pub temp_fields :
    (hw : Hardware)
    → tjmax_of hw < 128
    → offset_of hw ≤ tjmax_of hw
    → readout_of hw ≤ tjmax_of hw
    → temp_restart hw
      ≡ tjmax_of hw * 2 ^ 24 + (tjmax_of hw - offset_of hw) * 2 ^ 16 + (tjmax_of hw - readout_of hw)
temp_fields hw h k l = omega (
  arith,
  temp_restart-packed hw,
  extended_small (tjmax_of hw) (sub32 (tjmax_of hw) (offset_of hw))
      (sub32 (tjmax_of hw) (readout_of hw)) h (omega arith) (omega arith),
)

packed-lt : (tjmax max tpkg : ℕ) → tpkg < 2 ^ 32 → packed tjmax max tpkg < 2 ^ 32
unfolding packed
packed-lt tjmax max tpkg h = bit_or-lt 32 _ _ (bit_or-lt 32 _ _ (omega arith) (omega arith)) h

sign_extend-lt : (w : ℕ) → w < 2 ^ 32 → sign_extend w < 2 ^ 64
sign_extend-lt w h = ground arith

-- A sample is a `uint64_t`.
pub temp_restart-lt : (hw : Hardware) → temp_restart hw < 2 ^ 64
temp_restart-lt hw = rw (temp_restart-packed hw) (sign_extend-lt _ (packed-lt _ _ _ (omega arith)))
