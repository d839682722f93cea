-- ===== src/Micstat/Counters.antt =====
-- The table of counters of micstat, and the first loop of its roll_buffer. The trace and the events
-- of a counter are those of sbstat, whose code micstat has in the same words, but for the number of
-- cpus, which is `nr_cpu_ids` here.
pub mod Held
use xstats.Base.{
  ℕ, ◌≡◌, refl, ap, List, [], ◌∷◌, ◌++◌, sub64, replicate, length, ◌==◌, if◌then◌else◌, map, none,
  suc,
}
use xstats.Base.Text.{Text, codes}
use xstats.Xstat.World.{PerfValue}
use xstats.Sbstat
use xstats.Sbstat.{Cell, Trace, intv_restart, zero_value}
use xstats.Micstat.Smc.{Bus}
use xstats.Micstat.Temps.{temp2_restart, temp_restart}
use xstats.Micstat.Power.{power_restart, volt_restart}
use xstats.Micstat.Freq.{PllData, freq_restart}

pub data Counter : Type 0 where
  ts intv freq temp temp2 power volt oh : Counter
  perf : (config : ℕ) → List Cell → Counter

-- The cells of the cpus that are there; the others are not touched.
abbrev pub zeroed : ℕ → List Cell
zeroed nr_cpu_ids = replicate nr_cpu_ids (record { event = none; value = zero_value })

abbrev pub configs : List ℕ
configs =
    0x002a ∷ 0x0016 ∷ 0x0017 ∷ 0x2016 ∷ 0x2017 ∷ 0x2018 ∷ 0x002b ∷ 0x0000 ∷ 0x0001 ∷ 0x0029 ∷ 0x000e
    ∷ 0x10cb ∷ 0x002c ∷ 0x002d ∷ 0x2005 ∷ []

-- The names that PERF_RAW_CONFIG pairs with the codes.
abbrev pub perf_name : ℕ → Text
perf_name config =
    if config == 0x002a
    then codes "cyc"
    else if config == 0x0016
    then codes "inst"
    else if config == 0x0017
    then codes "instv"
    else if config == 0x2016
    then codes "fp"
    else if config == 0x2017
    then codes "fpv"
    else if config == 0x2018
    then codes "fpa"
    else if config == 0x002b
    then codes "brm"
    else if config == 0x0000
    then codes "l1dr"
    else if config == 0x0001
    then codes "l1dw"
    else if config == 0x0029
    then codes "l1dm"
    else if config == 0x000e
    then codes "l1im"
    else if config == 0x10cb
    then codes "l2rm"
    else if config == 0x002c
    then codes "mcyc"
    else if config == 0x002d
    then codes "fes"
    else codes "fps"

-- A table with these codes and cells for its perf counters.
abbrev pub perfs : List (ℕ × List Cell) → List Counter
perfs [] = oh ∷ []
perfs ((config, cells) ∷ events) = perf config cells ∷ perfs events

abbrev pub table : List (ℕ × List Cell) → List Counter
table events = ts ∷ intv ∷ freq ∷ temp ∷ temp2 ∷ power ∷ volt ∷ perfs events

abbrev pub counters : ℕ → List Counter
counters nr_cpu_ids = table (map (λ config. (config, zeroed nr_cpu_ids)) configs)

-- MICSTAT_NCNT and MICSTAT_NBUF
abbrev pub ncnt : ℕ
ncnt = 23

abbrev pub nbuf : ℕ
nbuf = 128

-- What a round reads apart from the bus: the times at its start and its end, the die registers as
-- temp and then temp2 read them, the clock ratio, and the event counts.
pub record Readings : Type 0 where
  pub started : ℕ
  pub ended : ℕ
  pub mclkratio : ℕ
  pub die0 : ℕ
  pub die1 : ℕ
  pub die2 : ℕ
  pub die3 : ℕ
  pub perf_value : ℕ → PerfValue

-- The statics that the counters share, with the registers asked for on the bus so far.
pub record Device : Type 0 where
  pub trace : Trace
  pub lastdie : ℕ
  pub asked : List ℕ

pub ts_restart : Readings → Trace → Trace
ts_restart now t = record t { st_prev = t.st_current; st_current = now.started }

pub oh_restart : Readings → Trace → Trace
oh_restart now t = record t { st_oh = now.ended }

-- The count of a counter's events and their cells after it; the loop is that of sbstat.
abbrev pub perf_restart : (ℕ → ℕ → ℕ → ℕ) → Readings → List Cell → ℕ × List Cell
perf_restart scale now cells = Sbstat.perf_restart scale now.perf_value 0 cells

module _ (scale : ℕ → ℕ → ℕ → ℕ) (smc : Bus) (pll : PllData) where
  -- What the function pointer `restart` of a counter does: the sample, the statics, the counter.
  pub restart : Readings → Device → Counter → ℕ × (Device × Counter)
  restart now d ts = (now.started, (record d { trace = ts_restart now d.trace }, ts))
  restart now d intv = (intv_restart d.trace, (d, intv))
  restart now d freq = (freq_restart pll now.mclkratio, (d, freq))
  restart now d temp =
      let s = temp_restart smc now.die0 d.asked in
      (s.value, (record d { lastdie = s.lastdie; asked = s.asked }, temp))
  restart now d temp2 = (temp2_restart now.die1 now.die2 now.die3, (d, temp2))
  restart now d power =
      let (value, asked) = power_restart smc d.asked in (value, (record d { asked = asked }, power))
  restart now d volt =
      let (value, asked) = volt_restart smc d.asked in (value, (record d { asked = asked }, volt))
  restart now d oh =
      (sub64 now.ended d.trace.st_current, (record d { trace = oh_restart now d.trace }, oh))
  restart now d (perf config cells) =
      let (value, cells') = perf_restart scale now cells in (value, (d, perf config cells'))

  pub restart_counters : Readings → Device → List Counter → List ℕ × (Device × List Counter)
  restart_counters now d [] = ([], (d, []))
  restart_counters now d (c ∷ cs) =
      let (value, after) = restart now d c in
      let (row, rest) = restart_counters now after.0 cs in (value ∷ row, (rest.0, after.1 ∷ rest.1))

  -- The counts of the events, and their cells after it.
  abbrev pub counts : Readings → List (ℕ × List Cell) → List ℕ
  counts now [] = []
  counts now ((config, cells) ∷ events) = (perf_restart scale now cells).0 ∷ counts now events

  abbrev pub counted : Readings → List (ℕ × List Cell) → List (ℕ × List Cell)
  counted now [] = []
  counted now ((config, cells) ∷ events) =
      (config, (perf_restart scale now cells).1) ∷ counted now events

  pub length-counts :
      (now : Readings) (events : List (ℕ × List Cell)) → length (counts now events) ≡ length events
  length-counts now [] = refl
  length-counts now (e ∷ events) = ap suc (length-counts now events)

  pub length-counted :
      (now : Readings) (events : List (ℕ × List Cell)) → length (counted now events) ≡ length events
  length-counted now [] = refl
  length-counted now (e ∷ events) = ap suc (length-counted now events)

  perfs_lem :
      (now : Readings) (d : Device) (events : List (ℕ × List Cell))
      → restart_counters now d (perfs events) ≡ (
        counts now events ++ (sub64 now.ended d.trace.st_current ∷ []),
        (record d { trace = oh_restart now d.trace }, perfs (counted now events)),
      )
  unfolding restart_counters restart
  perfs_lem now d [] = refl
  perfs_lem now d ((config, cells) ∷ events) = rw (perfs_lem now d events) refl

  -- Whatever the events, a round gives one row in the order of the table: the time of its start, the
  -- time since the round before, the frequency, the three unions, the voltage, the counts, and the
  -- time that the round took. The bus is asked for the temperatures first, then for the powers and
  -- the voltage. The trace then holds the start of the round before, and the start and the end of this
  -- one; the table keeps its shape.
  pub restart_counters_lem :
      (now : Readings) (d : Device) (events : List (ℕ × List Cell))
      → let temps = temp_restart smc now.die0 d.asked in
        let powers = power_restart smc temps.asked in
        let volts = volt_restart smc powers.1 in
        restart_counters now d (table events) ≡ (
          now.started
              ∷ sub64 now.started d.trace.st_current
              ∷ freq_restart pll now.mclkratio
              ∷ temps.value
              ∷ temp2_restart now.die1 now.die2 now.die3
              ∷ powers.0
              ∷ volts.0
              ∷ (counts now events ++ (sub64 now.ended now.started ∷ [])),
          (
            record {
              trace = record {
                st_prev = d.trace.st_current;
                st_current = now.started;
                st_oh = now.ended;
              };
              lastdie = temps.lastdie;
              asked = volts.1;
            },
            table (counted now events),
          ),
        )
  unfolding restart_counters restart ts_restart oh_restart intv_restart
  restart_counters_lem now d events = rw (perfs_lem now _ events) refl
