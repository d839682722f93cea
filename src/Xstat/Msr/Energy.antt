-- ===== src/Xstat/Msr/Energy.antt =====
-- The 32-bit energy counter across its wraps, the energy unit, and the reset of the limit reasons.
use xstats.Base.{ℕ, ◌+◌, ◌-◌, ◌*◌, ◌/◌, ◌%◌, ◌^◌, ◌<◌, ◌≡◌, ap, List, [], ◌∷◌, arith}
use xstats.Base.Bits.{bit_and_ones, bit_and_split}
use xstats.Kernel.{Result, ok, or_fault, ◌>>=◌}
use xstats.Xstat.World.{
  Hardware, pkg_energy_status, rapl_power_unit, core_perf_limit_reasons, Ctx, word, as_word, wrmsr,
}
use xstats.Xstat.Msr.{energy_restart, eunit_restart, reset_mask, perflmt_restart}

-- Where the register and the last reading have 32 bits, the sample is their difference modulo
-- 2 ^ 32, and the reading is kept for the next sample.
pub energy_restart_lem :
    (hw : Hardware) (laste : ℕ)
    → hw.msr pkg_energy_status < 2 ^ 32
    → laste < 2 ^ 32
    → energy_restart hw laste
      ≡ ((hw.msr pkg_energy_status + 2 ^ 32 - laste) % 2 ^ 32, word (hw.msr pkg_energy_status))
unfolding energy_restart
energy_restart_lem hw laste h k = ground (arith, bit_and_ones 32 (hw.msr pkg_energy_status))

-- The energy counter run over a list of rounds; each starts from the slot that the last one left.
pub energy_samples : Ctx → List Hardware → Result (List ℕ)
energy_samples slot [] = ok []
energy_samples slot (hw ∷ hws) = do
  laste ← or_fault (as_word slot)
  let (sample, slot') = energy_restart hw laste
  samples ← energy_samples slot' hws
  ok (sample ∷ samples)

abbrev pub last_reading : ℕ → List Hardware → ℕ
last_reading e [] = e
last_reading e (hw ∷ hws) = last_reading (hw.msr pkg_energy_status) hws

-- The energy unit is the field of bits 12:8.
pub eunit_restart_lem : (hw : Hardware) → eunit_restart hw ≡ hw.msr rapl_power_unit / 2 ^ 8 % 32
unfolding eunit_restart
eunit_restart_lem hw = bit_and_ones 5 (hw.msr rapl_power_unit / 2 ^ 8)

-- The value sampled is the register as read; what is written back keeps bits 15:0 and 63:32 and
-- clears the log in bits 31:16.
pub perflmt_restart_lem :
    (hw : Hardware)
    → hw.msr core_perf_limit_reasons < 2 ^ 64
    → perflmt_restart hw ≡ (
      hw.msr core_perf_limit_reasons,
      wrmsr core_perf_limit_reasons (
          hw.msr core_perf_limit_reasons / 2 ^ 32 * 2 ^ 32
          + hw.msr core_perf_limit_reasons % 2 ^ 16),
    )
unfolding perflmt_restart
perflmt_restart_lem hw h =
    let v = hw.msr core_perf_limit_reasons in
    ap (λ w. (v, wrmsr core_perf_limit_reasons w))
      (omega (
        arith,
        bit_and_split 32 v reset_mask,
        bit_and_ones 32 (v / 2 ^ 32),
        bit_and_ones 16 (v % 2 ^ 32),
      ))
