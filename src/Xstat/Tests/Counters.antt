-- ===== src/Xstat/Tests/Counters.antt =====
-- Tests of the counters read from registers, the clock and the performance events.
use native.Mathlib.Nat.{mul-add-div_right, div-eq_of_lt}
use xstats.Base.{
  ◌*◌, ◌/◌, ◌<◌, ℕ, ◌+◌, ◌-◌, ◌*◌, ◌^◌, ◌≤◌, ◌≡◌, List, [], ◌∷◌, some, none, arith, sum, map,
  length,
}
use xstats.Xstat.World.{Hardware, PerfCounterPerCpu, PerfCounterContext, PerfValue}
use xstats.Xstat.Msr.{temp_restart}
use xstats.Xstat.Msr.Temperature.{tjmax_of, offset_of, readout_of, temp_fields}
use xstats.Xstat.Perf.{perf_overflow_threshold, perf_restart, record_value}
use xstats.Xstat.Perf.Laws.{
  recorded, shares, perf_restart_lem, event_samples, last_total, event_samples-sum,
}
use xstats.Xstat.Tests.{exact_scale, hw, count_at}

temp_fields_example :
    temp_restart hw
    ≡ tjmax_of hw * 2 ^ 24 + (tjmax_of hw - offset_of hw) * 2 ^ 16 + (tjmax_of hw - readout_of hw)
temp_fields_example = temp_fields hw (omega arith) (omega arith) (omega arith)

-- The register wraps between the first reading and the second.
abbrev wrapping : List Hardware
wrapping = hw ∷ record hw { msr = λ r. 0x40 } ∷ []

abbrev counting : PerfCounterPerCpu
counting = record { total = 5; enabled = 5; running = 5; event = some 60 }

-- Two cpus, of which one has no event.
abbrev context : PerfCounterContext
context = record {
  config = record { config = 60 };
  mask = 4 ∷ 5 ∷ [];
  events = counting ∷ record counting { event = none } ∷ [];
}

perf_restart_example :
    (perf_restart exact_scale hw context ≡ (
      shares exact_scale hw context.events,
      record context { events = map (recorded hw) context.events },
    ))
    × (shares exact_scale hw context.events ≤ length context.events * perf_overflow_threshold)
perf_restart_example = perf_restart_lem exact_scale hw context (omega arith)

abbrev values : List PerfValue
values = count_at 40 ∷ count_at 1000 ∷ []

-- The product with the ratio of two times, to the nearest number.
abbrev rounded : ℕ → ℕ → ℕ → ℕ
rounded count enabled running = (count * (enabled * 2) + running) / (running * 2)

rounded-same : (d t : ℕ) → 0 < t → rounded d t t ≡ d
rounded-same d t h = omega (
  arith,
  mul-add-div_right {m = t * 2} (omega arith) d t,
  div-eq_of_lt {n = t} {m = t * 2} (omega arith),
)

event_samples_example :
    counting.total + sum (event_samples rounded counting values)
    ≡ last_total rounded counting.total values
unfolding record_value
event_samples_example =
    event_samples-sum rounded (λ d t small some_time. rounded-same d t some_time) counting values
      (omega arith)
