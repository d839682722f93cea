-- ===== src/Xstat/Node/Words.antt =====
-- The words of a row fit a `uint64_t`.
use native.Mathlib.Bridge.{le_prop}
use xstats.Base.{ℕ, ◌/◌, ◌^◌, ◌<◌, List, arith, All}
use xstats.Base.Bits.{bit_and_ones}
use xstats.Base.Sublists.{All-IsProp}
use xstats.Xstat.World.{Hardware, Register, core_perf_limit_reasons, IpmiSensors, rapl_power_unit}
use xstats.Xstat.Clock.{get_time}
use xstats.Xstat.Msr.{energy_restart, eunit_restart, perflmt_restart}
use xstats.Xstat.Msr.Temperature.{temp_restart-lt}
use xstats.Xstat.Perf.Laws.{perf_restart-lt}
use xstats.Xstat.Ipmi.Sample.{restart-lt}
use xstats.Xstat.Ipmi.Sensors.{AreSensors}
use xstats.Xstat.Node.Slots.{Slots, row_of}

abbrev pub AreWords : List ℕ → Type 0
AreWords row = All (λ w. w < 2 ^ 64) row

pub AreWords-IsProp : (row : List ℕ) → IsProp (AreWords row)
AreWords-IsProp row = All-IsProp (λ w. w < 2 ^ 64) (λ w. le_prop) row

-- `rdmsrl` gives a register of 64 bits.
abbrev pub HasRegisters : Hardware → Type 0
HasRegisters hw = (r : Register) → hw.msr r < 2 ^ 64

eunit_restart-lt : (hw : Hardware) → eunit_restart hw < 2 ^ 64
eunit_restart-lt hw =
    unfold eunit_restart in omega (arith, bit_and_ones 5 (hw.msr rapl_power_unit / 2 ^ 8))

pub row_of-AreWords :
    (scale : ℕ → ℕ → ℕ → ℕ) (hw : Hardware) (last : ℕ) (s : Slots) (g : IpmiSensors)
    → HasRegisters hw
    → AreSensors g
    → AreWords (row_of scale hw last s g)
unfolding energy_restart perflmt_restart get_time
row_of-AreWords scale hw last s g h v =
    let counts = perf_restart-lt scale hw in
    (
      omega arith,
      (
        omega arith,
        (
          counts s.cycles,
          (
            counts s.instructions,
            (
              counts s.llc_refs,
              (
                counts s.llc_misses,
                (
                  counts s.branches,
                  (
                    counts s.branch_misses,
                    (
                      counts s.l2_lines,
                      (
                        temp_restart-lt hw,
                        (
                          omega arith,
                          (
                            eunit_restart-lt hw,
                            (
                              h core_perf_limit_reasons,
                              (
                                restart-lt g.at_a v.a_valid,
                                (
                                  restart-lt g.at_b v.b_valid,
                                  (restart-lt g.at_misc v.misc_valid, tt),
                                ),
                              ),
                            ),
                          ),
                        ),
                      ),
                    ),
                  ),
                ),
              ),
            ),
          ),
        ),
      ),
    )
