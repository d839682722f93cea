-- ===== src/Xstat/Perf.antt =====
-- xstat/hpc_cnt.c: hardware performance counters, one event for each cpu of the node.
pub mod Laws
pub mod Held
use xstats.Base.{
  ℕ, ◌+◌, ◌-◌, ◌%◌, ◌^◌, Bool, true, false, ◌||◌, List, [], ◌∷◌, map, Option, none, some, u64, ltb,
  leb, if◌then◌else◌,
}
use xstats.Kernel.{Result, ok, fault}
use xstats.Xstat.World.{
  Hardware, PerfValue, PerfEventConfig, PerfCounterPerCpu, PerfCounterContext, Ctx, perf, Effect,
  release,
}

-- 2T
abbrev pub perf_overflow_threshold : ℕ
perf_overflow_threshold = 2000000000000

-- `create config cpu` is the event that perf_event_create_kernel_counter returns; `none` is NULL
-- or an error pointer.
pub create_events :
    (PerfEventConfig → ℕ → Option ℕ) → PerfEventConfig → List ℕ → List PerfCounterPerCpu
create_events create cfg [] = []
create_events create cfg (cpu ∷ mask) =
    record { total = 0; enabled = 0; running = 0; event = create cfg cpu }
    ∷ create_events create cfg mask

-- `allocated` tells whether kzalloc gave the memory; the code uses it unchecked.
unfoldable pub perf_init :
    Bool → (PerfEventConfig → ℕ → Option ℕ) → PerfEventConfig → List ℕ → Result Ctx
perf_init false create cfg mask = fault
perf_init true create cfg mask =
    ok (perf (record { config = cfg; mask = mask; events = create_events create cfg mask }))

pub release_events : List PerfCounterPerCpu → List Effect
release_events [] = []
release_events (c ∷ cs) = elim c.event [
  | none ↦ release_events cs
  | some e ↦ release e ∷ release_events cs
]

pub perf_exit : PerfCounterContext → List Effect
perf_exit ctx = release_events ctx.events

unfoldable pub record_value : PerfValue → PerfCounterPerCpu → PerfCounterPerCpu
record_value now c = record c { total = now.total; enabled = now.enabled; running = now.running }

-- `scale` is the rounded floating-point product of a count by the ratio of two times.
module _ (scale : ℕ → ℕ → ℕ → ℕ) where
  -- What one cpu adds to the total. Counts that run back and times that stand still add nothing.
  pub contribution : PerfValue → PerfCounterPerCpu → ℕ
  contribution now c =
      if ltb now.total c.total || ltb now.enabled c.enabled || leb now.running c.running
      then 0
      else let tmp =
          scale (now.total - c.total) (now.enabled - c.enabled) (now.running - c.running) in
        if ltb perf_overflow_threshold tmp then 0 else tmp

  pub restart_event : Hardware → ℕ → PerfCounterPerCpu → ℕ × PerfCounterPerCpu
  restart_event hw total c = elim c.event [
    | none ↦ (total, c)
    | some e ↦ let now = hw.perf_value e in (u64 (total + contribution now c), record_value now c)
  ]

  pub restart_events : Hardware → ℕ → List PerfCounterPerCpu → ℕ × List PerfCounterPerCpu
  restart_events hw total [] = (total, [])
  restart_events hw total (c ∷ cs) =
      let (total', c') = restart_event hw total c in
      let (sum, rest) = restart_events hw total' cs in (sum, c' ∷ rest)

  pub perf_restart : Hardware → PerfCounterContext → ℕ × PerfCounterContext
  perf_restart hw ctx =
      let (total, events) = restart_events hw 0 ctx.events in
      (total, record ctx { events = events })
