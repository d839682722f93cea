-- ===== src/Micstat/Counters/Held.antt =====
-- The events that the counters of micstat hold stay over a round.
use xstats.Base.{ℕ, ◌≡◌, refl, ap₂, List, [], ◌∷◌, ◌++◌}
use xstats.Sbstat.Load.Events.{held_cells-perf_restart}
use xstats.Micstat.Smc.{Bus}
use xstats.Micstat.Freq.{PllData}
use xstats.Micstat.Counters.{
  Counter, ts, intv, freq, temp, temp2, power, volt, oh, perf, Device, Readings, restart,
  restart_counters,
}
use xstats.Micstat.Load.Events.{held_one, held}

module _ (scale : ℕ → ℕ → ℕ → ℕ) (smc : Bus) (pll : PllData) (now : Readings) where
  held_one-restart :
      (d : Device) (c : Counter) → held_one (restart scale smc pll now d c).1.1 ≡ held_one c
  unfolding restart
  held_one-restart d (perf config cells) = held_cells-perf_restart scale now.perf_value 0 cells
  held_one-restart d ts = refl
  held_one-restart d intv = refl
  held_one-restart d freq = refl
  held_one-restart d temp = refl
  held_one-restart d temp2 = refl
  held_one-restart d power = refl
  held_one-restart d volt = refl
  held_one-restart d oh = refl

  -- A round leaves every counter its events.
  pub held-restart_counters :
      (d : Device) (cs : List Counter)
      → held (restart_counters scale smc pll now d cs).1.1 ≡ held cs
  unfolding restart_counters
  held-restart_counters d [] = refl
  held-restart_counters d (c ∷ cs) =
      let after = restart scale smc pll now d c in
      ap₂ ◌++◌ (held_one-restart d c) (held-restart_counters after.1.0 cs)
