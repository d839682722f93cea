-- ===== src/Micstat/Load.antt =====
-- Loading and unloading micstat: micstat_init and micstat_exit, with the events of the counters.
pub mod Events
pub mod Fresh
pub mod Exit
pub mod Ready
use xstats.Base.{
  ℕ, zero, suc, ◌≤◌, ◌≡◌, ◌≢◌, refl, ap, ◌∙◌, ◌⊎◌, inl, inr, Bool, true, false, List, [], ◌∷◌, ◌++◌,
  Option, arith, leb, replicate, length-replicate, if◌then◌else◌,
}
use xstats.Kernel.{Result, ok, fault, ◌>>=◌}
use xstats.Ring.{Ring}
use xstats.Rollback
use xstats.Rollback.{Loaded, cnt_init_failed, class_failed, loaded, exit_counters, load}
use xstats.Rollback.Laws.{Keeps, of_all, load_lem, exit_counters_lem}
use xstats.Sbstat.{Cell, Trace}
use xstats.Sbstat.Load
use xstats.Sbstat.Load.{create_events}
use xstats.Sbstat.Load.Events.{
  held_cells, obtained, AllFree-replicate, create_events-obtained, perf_exit_lem,
}
use xstats.Micstat.Freq.{PllData, get_baseclk, set_baseclk, pll_data_k1om}
use xstats.Micstat.Counters.{Counter, ts, intv, freq, temp, temp2, power, volt, oh, perf, zeroed}
use xstats.Micstat.Control.{Module, Task, null, running, gone, timer_cleanup, stop_task}
use xstats.Micstat.Control.Laws.{IsControlled, InStep}

-- NR_CPUS_MIC, the size of the arrays of a counter.
abbrev pub nr_cpus_mic : ℕ
nr_cpus_mic = 244

-- Both loops run up to `nr_cpu_ids`; the first clears the cells.
pub perf_init : (nr_cpu_ids : ℕ) → (ℕ → Option ℕ) → Bool × List Cell
perf_init nr_cpu_ids make = create_events make 0 (zeroed nr_cpu_ids)

-- The loop is that of sbstat.
abbrev pub perf_exit : List Cell → List Cell × List ℕ
perf_exit = Load.perf_exit

pub init : (nr_cpu_ids : ℕ) → (ℕ → ℕ → Option ℕ) → Counter → Bool × Counter
init nr make (perf config cells) =
    let (made, cells') = perf_init nr (make config) in (made, perf config cells')
init nr make ts = (true, ts)
init nr make c = (true, c)

pub exit : Counter → Counter × List ℕ
exit (perf config cells) =
    let (cells', released) = perf_exit cells in (perf config cells', released)
exit ts = (ts, [])
exit c = (c, [])

-- The statics that loading sets. `lastdie` is written by temp_restart too.
pub record Statics : Type 0 where
  pub counters : List Counter
  pub control : Module
  pub ring : Ring
  pub pll : PllData
  pub lastdie : ℕ

-- The start of micstat_init, and what it does between the loop and class_register.
abbrev pub started : Statics → Statics
started s = record s { lastdie = 0; control = record s.control { on = false; period = 1000 } }

abbrev pub emptied : Statics → Statics
emptied s = record s { ring = record s.ring { buffer_base = 0; buffer_next = 0; buffer_size = 0 } }

-- The ring is set where the counters are ready, and the clock where the class is registered too.
abbrev pub statics_after : Loaded → (mapped : Bool) → (scratch4 : ℕ) → Statics → Statics
statics_after cnt_init_failed mapped scratch4 s = s
statics_after class_failed mapped scratch4 s = emptied s
statics_after loaded mapped scratch4 s = record (emptied s) {
  pll = set_baseclk (get_baseclk mapped scratch4) s.pll;
}

-- How loading ends, the events released on the way, and the statics. More cpus than NR_CPUS_MIC are
-- written past the arrays of the first perf counter.
pub micstat_init :
    (nr_cpu_ids : ℕ)
    → (ℕ → ℕ → Option ℕ)
    → (registered : ℕ) → (mapped : Bool) → (scratch4 : ℕ) → Statics
    → Result (Loaded × (List ℕ × Statics))
micstat_init nr make registered mapped scratch4 s =
    let (end, (cs, released)) = load (init nr make) exit registered s.counters in
    let after = statics_after end mapped scratch4 (record (started s) { counters = cs }) in
    if leb nr nr_cpus_mic then ok (end, (released, after)) else fault

-- The thread stopped, and the events released.
pub micstat_exit : Module → List Counter → Result (List ℕ × (List Counter × List ℕ))
micstat_exit m cs = do (m', stopped) ← timer_cleanup m; ok (stopped, exit_counters exit cs)
