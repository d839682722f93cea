-- ===== src/Sbstat.antt =====
-- sbstat/sbstat.c: one socket, one ring, one thread; an older module than the one under xstat/.
-- The static arrays of a counter, `events` and `values`, are one list of cells, one for each cpu.
pub mod Counters
pub mod Buffer
pub mod Control
pub mod Load
pub mod Show
pub mod Thread
pub mod Unload
pub mod Device
mod Tests
use xstats.Base.{
  ℕ, zero, suc, ◌+◌, ◌-◌, ◌*◌, ◌/◌, ◌%◌, ◌^◌, bit_and, Bool, true, false, ◌||◌, List, [], ◌∷◌, ◌++◌,
  Option, none, some, u32, u64, sub64, ◌>>>◌, ltb, leb, replicate, if◌then◌else◌,
}
use xstats.Base.Text.{Text, codes}
use xstats.Xstat.World.{PerfValue}

-- NR_CPUS_MIC
abbrev pub nr_cpus_mic : ℕ
nr_cpus_mic = 32

-- `events[i]` and `values[i]` of `struct perf_event_config`
pub record Cell : Type 0 where
  pub event : Option ℕ
  pub value : PerfValue

-- An element of `counters`: its own kind, or a `struct perf_event_config` with its code.
pub data Counter : Type 0 where
  ts intv temp oh : Counter
  perf : (config : ℕ) → List Cell → Counter

abbrev pub zero_value : PerfValue
zero_value = record { total = 0; enabled = 0; running = 0 }

-- The statics as the module is loaded.
abbrev pub zeroed : List Cell
zeroed = replicate nr_cpus_mic (record { event = none; value = zero_value })

abbrev pub counters : List Counter
counters =
    ts
    ∷ intv
    ∷ temp
    ∷ perf 0x003c zeroed
    ∷ perf 0x00c0 zeroed
    ∷ perf 0x4f2e zeroed
    ∷ perf 0x412e zeroed
    ∷ perf 0x00c4 zeroed
    ∷ perf 0x00c5 zeroed
    ∷ perf 0x07f4 zeroed
    ∷ oh
    ∷ []

-- MICSTAT_NCNT and MICSTAT_NBUF
abbrev pub ncnt : ℕ
ncnt = 11

abbrev pub nbuf : ℕ
nbuf = 128

-- `st_prev`, `st_current` and `st_oh`
pub record Trace : Type 0 where
  pub st_prev : ℕ
  pub st_current : ℕ
  pub st_oh : ℕ

-- What a round reads: the time at its start and at its end, the thermal status, the event counts.
pub record Readings : Type 0 where
  pub started : ℕ
  pub ended : ℕ
  pub therm_status : ℕ
  pub perf_value : ℕ → PerfValue

pub ts_restart : Readings → Trace → ℕ × Trace
ts_restart now t = (now.started, record t { st_prev = t.st_current; st_current = now.started })

unfoldable pub intv_restart : Trace → ℕ
intv_restart t = sub64 t.st_current t.st_prev

pub oh_restart : Readings → Trace → ℕ × Trace
oh_restart now t = (sub64 now.ended t.st_current, record t { st_oh = now.ended })

pub ts_reset : ℕ → Trace → Trace
ts_reset now t = record { st_prev = now; st_current = now; st_oh = now }

pub temp_restart : Readings → ℕ
temp_restart now = bit_and (now.therm_status >>> 16) 0x7f

-- 2T
abbrev pub perf_overflow_threshold : ℕ
perf_overflow_threshold = 2000000000000

-- `scale` is the rounded floating-point product of a count by the ratio of two times.
module _ (scale : ℕ → ℕ → ℕ → ℕ) where
  pub contribution : PerfValue → PerfValue → ℕ
  contribution now was =
      if ltb now.total was.total || ltb now.enabled was.enabled || leb now.running was.running
      then 0
      else let tmp =
          scale (now.total - was.total) (now.enabled - was.enabled) (now.running - was.running) in
        if ltb perf_overflow_threshold tmp then 0 else tmp

  pub perf_restart : (ℕ → PerfValue) → ℕ → List Cell → ℕ × List Cell
  perf_restart read_value total [] = (total, [])
  perf_restart read_value total (c ∷ cs) =
      let read : ℕ × Cell = elim c.event [
        | none ↦ (total, c)
        | some e ↦
            (u64 (total + contribution (read_value e) c.value), record c { value = read_value e })
      ] in
      let (sum, rest) = perf_restart read_value read.0 cs in (sum, read.1 ∷ rest)

  -- The first loop of roll_buffer.
  pub restart_counters : Readings → Trace → List Counter → List ℕ × (Trace × List Counter)
  restart_counters now t [] = ([], (t, []))
  restart_counters now t (ts ∷ cs) =
      let (value, t') = ts_restart now t in
      let (row, rest) = restart_counters now t' cs in (value ∷ row, (rest.0, ts ∷ rest.1))
  restart_counters now t (intv ∷ cs) =
      let (row, rest) = restart_counters now t cs in (intv_restart t ∷ row, (rest.0, intv ∷ rest.1))
  restart_counters now t (temp ∷ cs) =
      let (row, rest) = restart_counters now t cs in
      (temp_restart now ∷ row, (rest.0, temp ∷ rest.1))
  restart_counters now t (oh ∷ cs) =
      let (value, t') = oh_restart now t in
      let (row, rest) = restart_counters now t' cs in (value ∷ row, (rest.0, oh ∷ rest.1))
  restart_counters now t (perf config cells ∷ cs) =
      let (value, cells') = perf_restart now.perf_value 0 cells in
      let (row, rest) = restart_counters now t cs in
      (value ∷ row, (rest.0, perf config cells' ∷ rest.1))

-- What kthread_function does between two rounds: how long it sleeps, an `unsigned int`.
pub time_to_sleep : (period : ℕ) → Trace → ℕ
time_to_sleep period t =
    let spent = u32 (sub64 t.st_oh t.st_current / 1000000) in
    if ltb period (u32 (spent * 5)) then u32 (spent * 4) else u32 (period + 2 ^ 32 - spent)
