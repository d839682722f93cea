-- ===== src/Xstat/Msr.antt =====
-- xstat/msr_cnt.c: counters read from model-specific registers.
-- A C `int` is its pattern of 32 bits; a shift or a difference out of its range wraps.
pub mod Temperature
pub mod Energy
use xstats.Base.{
  ℕ, ◌+◌, ◌-◌, ◌*◌, ◌/◌, ◌%◌, ◌^◌, bit_and, bit_or, List, ◌++◌, u32, sub32, u64, sub64, ◌<<<◌,
  ◌>>>◌, ltb, if◌then◌else◌,
}
use xstats.Base.Text.{Text, codes, show_ℕ}
use xstats.Kernel.{Result}
use xstats.Kernel.Printf.{Scnprintf}
use xstats.Xstat.World.{
  Hardware, package_therm_status, temperature_target, pkg_energy_status, rapl_power_unit,
  core_perf_limit_reasons, Ctx, word, as_word, Effect, wrmsr,
}

-- An `int` converted to `uint64_t`: the sign bit is repeated.
abbrev pub sign_extend : ℕ → ℕ
sign_extend w = if ltb w (2 ^ 31) then w else w + (2 ^ 64 - 2 ^ 32)

pub temp_restart : Hardware → ℕ
temp_restart hw =
    let status = hw.msr package_therm_status in
    let target = hw.msr temperature_target in
    let tjmax = bit_and (target >>> 16) 0xff in
    let offset = bit_and (target >>> 8) 0xff in
    let readout = bit_and (status >>> 16) 0x7f in
    let max = sub32 tjmax offset in
    let tpkg = sub32 tjmax readout in
    sign_extend (bit_or (bit_or (u32 (tjmax <<< 24)) (u32 (max <<< 16))) tpkg)

-- The format's text; TEMP_DETAIL is not defined.
unfoldable pub temp_text : ℕ → Text
temp_text data_word = codes "\"tpkg\":" ++ show_ℕ (bit_and data_word 0xff)

unfoldable pub temp_scnprintf : Scnprintf → ℕ → ℕ → Result Text
temp_scnprintf printf limit data_word = printf.write limit (temp_text data_word)

-- The new slot holds the register as read; the value returned is of 32 bits.
unfoldable pub energy_restart : Hardware → ℕ → ℕ × Ctx
energy_restart hw laste =
    let eread = hw.msr pkg_energy_status in
    let low = bit_and eread 0xffffffff in
    let unwrapped = if ltb low laste then u64 (low + 0x100000000) else low in
    (sub64 unwrapped laste, word eread)

unfoldable pub eunit_restart : Hardware → ℕ
eunit_restart hw = bit_and (hw.msr rapl_power_unit >>> 8) 0x1f

abbrev pub reset_mask : ℕ
reset_mask = 0xffffffff0000ffff

unfoldable pub perflmt_restart : Hardware → ℕ × Effect
perflmt_restart hw =
    let perf_limit = hw.msr core_perf_limit_reasons in
    (perf_limit, wrmsr core_perf_limit_reasons (bit_and perf_limit reset_mask))
