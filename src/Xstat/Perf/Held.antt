-- ===== src/Xstat/Perf/Held.antt =====
-- The events that a context holds, from perf_init to perf_exit.
use xstats.Base.{ℕ, ◌≡◌, refl, List, [], ◌∷◌, map, Option, none, some, arith}
use xstats.Xstat.World.{Hardware, PerfEventConfig, PerfCounterPerCpu, PerfCounterContext, release}
use xstats.Xstat.Perf.{
  create_events, release_events, perf_exit, record_value, restart_event, restart_events,
  perf_restart,
}

-- The events that the kernel hands out for the cpus of a mask.
abbrev pub handed : (PerfEventConfig → ℕ → Option ℕ) → PerfEventConfig → List ℕ → List ℕ
handed create cfg [] = []
handed create cfg (cpu ∷ mask) = elim (create cfg cpu) [
  | none ↦ handed create cfg mask
  | some e ↦ e ∷ handed create cfg mask
]

-- perf_exit releases what perf_init was handed.
pub perf_exit-create_events :
    (create : PerfEventConfig → ℕ → Option ℕ) (cfg : PerfEventConfig) (mask : List ℕ)
    → perf_exit (record { config = cfg; mask = mask; events = create_events create cfg mask })
      ≡ map release (handed create cfg mask)
unfolding perf_exit release_events create_events
perf_exit-create_events create cfg [] = refl
perf_exit-create_events create cfg (cpu ∷ mask) =
    ground (arith, perf_exit-create_events create cfg mask)

release_events-restart :
    (scale : ℕ → ℕ → ℕ → ℕ) (hw : Hardware) (total : ℕ) (cs : List PerfCounterPerCpu)
    → release_events (restart_events scale hw total cs).1 ≡ release_events cs
unfolding release_events restart_events restart_event record_value
release_events-restart scale hw total [] = refl
release_events-restart scale hw total (c ∷ cs) =
    ground (arith, release_events-restart scale hw (restart_event scale hw total c).0 cs)

-- A round leaves a context its events.
pub perf_exit-perf_restart :
    (scale : ℕ → ℕ → ℕ → ℕ) (hw : Hardware) (ctx : PerfCounterContext)
    → perf_exit (perf_restart scale hw ctx).1 ≡ perf_exit ctx
unfolding perf_exit perf_restart
perf_exit-perf_restart scale hw ctx = release_events-restart scale hw 0 ctx.events
