-- ===== src/Micstat/Tests.antt =====
-- Tests of micstat.
use xstats.Base.{
  ℕ, ◌+◌, ◌-◌, ◌*◌, ◌/◌, ◌%◌, ◌^◌, ◌<◌, ◌≡◌, ◌≢◌, refl, ◌⊎◌, true, false, List, [], ◌∷◌, ◌++◌, map,
  Option, none, some, arith, ◌==◌, if◌then◌else◌, take, concat, replicate, length-replicate,
}
use xstats.Base.Text.{Text, codes}
use xstats.Kernel.{ok}
use xstats.Kernel.Printf.{Scnprintf}
use xstats.Ring.{Ring}
use xstats.Ring.Refine.{IsValid, append}
use xstats.Rollback.{Loaded, cnt_init_failed, class_failed, loaded}
use xstats.Device.{Event, round, show, store, Outcome}
use xstats.Page.Line.{plain_item}
use xstats.Page.Last.{Newest}
use xstats.Thread.{Round, executed, Follow, appends}
use xstats.Sbstat.{Trace}
use xstats.Micstat.Smc.{reading}
use xstats.Micstat.Temps.{temp_restart, temp_scnprintf, temp_scnprintf-temp_restart}
use xstats.Micstat.Power.{power_restart, power_scnprintf, power_scnprintf-power_restart}
use xstats.Micstat.Freq.{PllData, pll_data_k1om, freq_restart, freq_restart_lem}
use xstats.Micstat.Counters.{ncnt, nbuf, Readings, counters, zeroed, configs}
use xstats.Micstat.Buffer.{Sampler, IsSampler, samples}
use xstats.Micstat.Show.{line, micstat_show_last, micstat_show_last_lem}
use xstats.Micstat.Thread.{kthread_function, micstat_thread_lem}
use xstats.Micstat.History.{round}
use xstats.Micstat.Control.{Module, null, Write, ctrl, set_period, stores}
use xstats.Micstat.Control.Laws.{IsControlled, threads, micstat_stores-IsControlled}
use xstats.Micstat.Load.{Statics, micstat_init}
use xstats.Micstat.Load.Events.{held, handed}
use xstats.Micstat.Device
use xstats.Micstat.Device.{Machine}
use xstats.Micstat.Device.Life.{Used, Unloads, micstat_life_lem}
use xstats.Micstat.Load.Fresh.{IsFresh, Ended, micstat_load_lem}

-- As much as fits.
abbrev plain : Scnprintf
plain = record { write = λ limit s. ok (take (limit - 1) s); write_lem = λ limit s. refl }

-- The exhaust sensor does not answer.
abbrev answers : ℕ → Option ℕ
answers reg = if reg == 0x41 then none else some (reg * 100)

temp_scnprintf_example :
    let low = λ (reg : ℕ). reading answers reg % 2 ^ 8 in
    temp_scnprintf plain 4096 (temp_restart (λ n. answers) 1085 []).value
    ≡ ok (
        concat (
          plain_item (codes "tfin") (low 0x42)
          ∷ plain_item (codes "tvccp") (low 0x43)
          ∷ plain_item (codes "tgddr") (low 0x46)
          ∷ plain_item (codes "tvddq") (low 0x45)
          ∷ plain_item (codes "tvddg") (low 0x44)
          ∷ plain_item (codes "tdie") (low 0x40)
          ∷ plain_item (codes "tfout") (low 0x41)
          ∷ plain_item (codes "tdie0") (1085 % 2 ^ 8)
          ∷ []))
temp_scnprintf_example = temp_scnprintf-temp_restart plain answers 1085 [] 4096 (omega arith)

power_scnprintf_example :
    let low = λ (reg : ℕ). reading answers reg % 2 ^ 8 in
    power_scnprintf plain 4096 (power_restart (λ n. answers) []).0
    ≡ ok (
        concat (
          plain_item (codes "avgpwr") (reading answers 0x36 % 2 ^ 16)
          ∷ plain_item (codes "pciepwr") (low 0x28)
          ∷ plain_item (codes "c2x3pwr") (low 0x29)
          ∷ plain_item (codes "c2x4pwr") (low 0x2a)
          ∷ plain_item (codes "vccppwr") (low 0x58)
          ∷ plain_item (codes "vddgpwr") (low 0x5a)
          ∷ plain_item (codes "vddqpwr") (low 0x59)
          ∷ []))
power_scnprintf_example = power_scnprintf-power_restart plain answers [] 4096 (omega arith)

abbrev pll : PllData
pll = record { bclk = 190476; ffpos = 8 }

freq_restart_example :
    (freq_restart pll 1562 ≡ pll.bclk * (1562 / 2 % 2 ^ 8) / 2 ^ (3 - 1562 / 2 ^ 9 % 4))
    × (pll.bclk * (1562 / 2 % 2 ^ 8) < 2 ^ 31)
freq_restart_example = freq_restart_lem pll 1562 (refl, omega arith, omega arith)

-- One row held.
abbrev ring : Ring
ring = record {
  buffer = replicate (ncnt * nbuf) 4;
  buffer_base = 127;
  buffer_next = 0;
  buffer_size = 1;
}

ring-IsValid : IsValid ncnt nbuf ring
ring-IsValid = record {
  storage = length-replicate {A = ℕ} 2944 4;
  base_in = omega arith;
  size_in = omega arith;
  next_at = refl;
}

micstat_show_last_example :
    (text : Text) × (micstat_show_last plain ring ≡ ok text) × Newest line (samples ring) text
micstat_show_last_example = micstat_show_last_lem plain ring ring-IsValid

abbrev trace : Trace
trace = record { st_prev = 10; st_current = 5000000; st_oh = 7000000 }

abbrev now : Readings
now = record {
  started = 9000000;
  ended = 9500000;
  mclkratio = 1562;
  die0 = 1085;
  die1 = 7;
  die2 = 8;
  die3 = 9;
  perf_value = λ event. record { total = event; enabled = event; running = event };
}

abbrev sampler : Sampler
sampler = record {
  device = record { trace = trace; lastdie = 0; asked = [] };
  counters = counters 2;
  ring = ring;
}

sampler-IsSampler : IsSampler sampler
sampler-IsSampler = record {
  events = map (λ config. (config, zeroed 2)) configs;
  shape = refl;
  width = refl;
  in_order = ring-IsValid;
}

abbrev exact : ℕ → ℕ → ℕ → ℕ
exact = λ count enabled running. count

abbrev rounds : List (Round Readings)
rounds =
    record { on = true; now = now; period = 1000; should_stop = false }
    ∷ record { on = true; now = now; period = 500; should_stop = true }
    ∷ []

micstat_thread_example :
    (slept : List ℕ) × (s' : Sampler) × (rows : List (List ℕ)) × (kthread_function exact
        (λ n. answers)
        pll
        rounds
        sampler
      ≡ ok (slept, s'))
    × IsSampler s'
    × Follow
        (λ (now : Readings). now.started)
        sampler.device.trace.st_current
        (executed rounds)
        rows
    × (samples s'.ring ≡ appends (append nbuf) (samples sampler.ring) rows)
micstat_thread_example =
    micstat_thread_lem exact (λ n. answers) pll rounds sampler sampler-IsSampler

abbrev off : Module
off = record { on = false; period = 1000; kthread_task = null; trace = trace }

off-IsControlled : IsControlled off
off-IsControlled = record { period_range = (omega arith, omega arith); in_step = tt }

abbrev writes : List Write
writes = ctrl 7 100 (codes "on") 2 ∷ set_period (codes "500") ∷ ctrl 8 200 (codes "off") 3 ∷ []

abbrev parse : Text → Option ℕ
parse buf = some 500

micstat_stores_example :
    (m' : Module) × (started : List ℕ) × (stopped : List ℕ) × (stores parse writes off
      ≡ ok (m', (started, stopped)))
    × IsControlled m'
    × (threads off.kthread_task ++ started ≡ stopped ++ threads m'.kthread_task)
micstat_stores_example = micstat_stores-IsControlled parse writes off off-IsControlled

-- The kernel refuses the fourth event on cpu 1.
abbrev make : ℕ → ℕ → Option ℕ
make config cpu =
    if config == 0x2016 then (if cpu == 1 then none else some 5) else some (config * 100 + cpu)

abbrev statics : Statics
statics = record {
  counters = counters 2;
  control = off;
  ring = ring;
  pll = pll_data_k1om;
  lastdie = 0;
}

statics-IsFresh : IsFresh statics
statics-IsFresh = record {
  none_held = refl;
  no_task = refl;
  clock = refl;
  storage = length-replicate {A = ℕ} 2944 4;
}

micstat_load_example :
    (end : Loaded) × (released : List ℕ) × (s' : Statics) × (micstat_init 2 make 0 true 0x26000000
        statics
      ≡ ok (end, (released, s')))
    × Ended 2 make 0 statics end released s'
micstat_load_example =
    micstat_load_lem 2 make 0 true 0x26000000 statics (omega arith) statics-IsFresh

-- Switched on, sampled, read, cleared, sampled, read and switched off.
abbrev events : List (Event Readings)
events =
    store 0 (record { buf = codes "on"; count = 2; thread = 7; now = 100; returned = false })
    ∷ round now
    ∷ show 3
    ∷ store 2 (record { buf = codes "1"; count = 1; thread = 8; now = 200; returned = false })
    ∷ round now
    ∷ show 4
    ∷ store 0 (record { buf = codes "off"; count = 3; thread = 9; now = 300; returned = false })
    ∷ round now
    ∷ []

micstat_life_example :
    (end : Loaded) × (released : List ℕ) × (s' : Statics) × (micstat_init 2 make 0 true 0x26000000
        statics
      ≡ ok (end, (released, s')))
    × (((end ≡ cnt_init_failed)
          × (held s'.counters ≡ [])
          × (config : ℕ) × (cpu : ℕ) × (make config cpu ≡ none))
        ⊎ ((end ≡ class_failed) × (◌≢◌ {A = ℕ} 0 0))
        ⊎ ((end ≡ loaded)
            × (o : Outcome) × (m : Machine) × (brought : List (List ℕ)) × (delivered : List
                (List ℕ))
            × (Device.run plain parse exact
                  (λ n. answers)
                  events
                  (record { statics = s'; asked = [] })
                ≡ ok (o, m))
            × Used o m.statics brought delivered
            × Unloads (handed 2 make statics.counters) o.started o.stopped m.statics))
micstat_life_example =
    micstat_life_lem plain parse exact (λ n. answers) 2 make 0 true 0x26000000 events [] statics
      (omega arith) statics-IsFresh refl
