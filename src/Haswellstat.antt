-- ===== src/Haswellstat.antt =====
-- haswellstat/stat.c. Its counters, its loading and its control are word for word those of
-- sbstat/sbstat.c; they are named here for what they are in this module. Its ring, and the attributes
-- `clear` and `last`, are its own.
pub mod Buffer
pub mod Unload
pub mod Thread
pub mod Device
mod Tests
use xstats.Base.{ℕ, List, Option, Bool}
use xstats.Base.Text.{Text}
use xstats.Kernel.{Result}
use xstats.Kernel.Printf.{Scnprintf}
use xstats.Rollback.{Loaded}
use xstats.Xstat.World.{PerfValue}
use xstats.Sbstat
use xstats.Sbstat.Load
use xstats.Sbstat.Control
use xstats.Sbstat.Show
use xstats.Page.Line
use xstats.Sbstat.{Cell, Counter, Trace, Readings}
use xstats.Sbstat.Load.{Statics}
use xstats.Sbstat.Control.{Module}

abbrev pub counters : List Counter
counters = Sbstat.counters

-- MICSTAT_NCNT and MICSTAT_NBUF
abbrev pub ncnt : ℕ
ncnt = 11

abbrev pub nbuf : ℕ
nbuf = 128

abbrev pub ts_restart : Readings → Trace → ℕ × Trace
ts_restart = Sbstat.ts_restart

abbrev pub intv_restart : Trace → ℕ
intv_restart = Sbstat.intv_restart

abbrev pub oh_restart : Readings → Trace → ℕ × Trace
oh_restart = Sbstat.oh_restart

abbrev pub ts_reset : ℕ → Trace → Trace
ts_reset = Sbstat.ts_reset

abbrev pub temp_restart : Readings → ℕ
temp_restart = Sbstat.temp_restart

abbrev pub perf_restart : (ℕ → ℕ → ℕ → ℕ) → (ℕ → PerfValue) → ℕ → List Cell → ℕ × List Cell
perf_restart = Sbstat.perf_restart

abbrev pub perf_init : (ℕ → Option ℕ) → Bool × List Cell
perf_init = Load.perf_init

abbrev pub perf_exit : List Cell → List Cell × List ℕ
perf_exit = Load.perf_exit

abbrev pub restart_counters :
    (ℕ → ℕ → ℕ → ℕ) → Readings → Trace → List Counter → List ℕ × (Trace × List Counter)
restart_counters = Sbstat.restart_counters

-- The pace of kthread_function.
abbrev pub time_to_sleep : (period : ℕ) → Trace → ℕ
time_to_sleep = Sbstat.time_to_sleep

abbrev pub set_on : Option ℕ → ℕ → Module → Module × List ℕ
set_on = Control.set_on

abbrev pub set_off : (returned : Bool) → Module → Result (Module × List ℕ)
set_off = Control.set_off

abbrev pub micstat_store_ctrl :
    Option ℕ → ℕ → (returned : Bool) → Text → ℕ → Module → Result (Module × (List ℕ × List ℕ))
micstat_store_ctrl = Control.micstat_store_ctrl

abbrev pub micstat_store_period : (Text → Option ℕ) → Text → Module → Module
micstat_store_period = Control.micstat_store_period

abbrev pub micstat_show_period : Module → Text
micstat_show_period = Control.micstat_show_period

abbrev pub micstat_show_ctrl : Module → Text
micstat_show_ctrl = Control.micstat_show_ctrl

abbrev pub micstat_init :
    (ℕ → ℕ → Option ℕ) → (registered : ℕ) → Statics → Loaded × (List ℕ × Statics)
micstat_init = Load.micstat_init

abbrev pub print_buffer : Scnprintf → ℕ → List ℕ → Result Text
print_buffer printf = Line.print_buffer printf (Show.print_item printf) counters
