-- ===== src/Sbstat/Tests.antt =====
-- Tests of sbstat.
use xstats.Base.{
  ℕ, ◌+◌, ◌*◌, ◌≤◌, ◌<◌, ◌-◌, true, take, ◌^◌, ◌≡◌, refl, ◌&&◌, ◌==◌, if◌then◌else◌, false, List,
  [], ◌∷◌, Option, none, some, arith, length, ltb, replicate, length-replicate, Bool, ◌⊎◌,
}
use xstats.Base.Text.{codes}
use xstats.Kernel.{ok, fault}
use xstats.Ring.{Ring}
use xstats.Ring.Refine.{IsValid}
use xstats.Sbstat.{
  Cell, Trace, Readings, zeroed, counters, ncnt, nbuf, restart_counters, time_to_sleep,
}
use xstats.Sbstat.Counters.{spent, time_to_sleep_lem}
use xstats.Sbstat.Buffer.{
  Sampler, roll_buffer, samples, append_if_room, IsSampler, roll_buffer-IsSampler,
}
use xstats.Sbstat.Load.{Statics, micstat_init}
use xstats.Sbstat.Load.Fresh.{Ended, micstat_init_lem}
use xstats.Kernel.Printf.{Scnprintf}
use xstats.Thread.{Round, executed, Follow, appends}
use xstats.Device.{Event, round, show, store}
use xstats.Sbstat.Thread.{kthread_function, sbstat_thread_lem}
use xstats.Sbstat.Control.{Module, set_on, set_off}
use xstats.Sbstat.Control.Laws.{set_off-set_on}

abbrev exact : ℕ → ℕ → ℕ → ℕ
exact = λ count enabled running. count

abbrev trace : Trace
trace = record { st_prev = 10; st_current = 5000000; st_oh = 7000000 }

abbrev readings : Readings
readings = record {
  started = 9000000;
  ended = 9500000;
  therm_status = 0x88300000;
  perf_value = λ event. record { total = event; enabled = event; running = event };
}

-- One cpu with an event.
abbrev cells : List Cell
cells = record { event = some 4; value = record { total = 1; enabled = 1; running = 1 } } ∷ zeroed

time_to_sleep_example :
    (1000 ≤ spent trace + time_to_sleep 1000 trace)
    × (5 * spent trace ≤ spent trace + time_to_sleep 1000 trace)
    × (time_to_sleep 1000 trace < 2 ^ 31)
time_to_sleep_example = time_to_sleep_lem 1000 trace (omega arith) (omega arith)

abbrev ring : Ring
ring = record {
  buffer = replicate (ncnt * nbuf) 0;
  buffer_base = 127;
  buffer_next = 1;
  buffer_size = 2;
}

ring-IsValid : IsValid ncnt nbuf ring
ring-IsValid = record {
  storage = length-replicate {A = ℕ} 1408 0;
  base_in = omega arith;
  size_in = omega arith;
  next_at = refl;
}

abbrev row : List ℕ
row = replicate ncnt 3

abbrev sampler : Sampler
sampler = record { trace = trace; counters = counters; ring = ring }

sampler-IsSampler : IsSampler sampler
sampler-IsSampler = record {
  a = zeroed;
  b = zeroed;
  c = zeroed;
  d = zeroed;
  e = zeroed;
  f = zeroed;
  g = zeroed;
  shape = refl;
  in_order = ring-IsValid;
}

sbstat_roll_buffer_example :
    (s' : Sampler) × (roll_buffer exact readings sampler
      ≡ ok (ltb (length (samples sampler.ring)) nbuf, s'))
    × IsSampler s'
    × (samples s'.ring
        ≡ append_if_room
            (samples sampler.ring)
            (restart_counters exact readings sampler.trace sampler.counters).0)
    × (s'.trace.st_current ≡ readings.started)
    × (s'.counters ≡ (restart_counters exact readings sampler.trace sampler.counters).1.1)
sbstat_roll_buffer_example = roll_buffer-IsSampler exact readings sampler sampler-IsSampler

-- The kernel refuses the fourth counter's event on cpu 2.
abbrev make : ℕ → ℕ → Option ℕ
make config cpu = if config == 0x4f2e && cpu == 2 then none else some (config * 100 + cpu)

-- class_register succeeds.
abbrev registered : ℕ
registered = 0

abbrev off : Module
off = record { on = false; period = 1000; kthread_task = none; trace = trace }

abbrev statics : Statics
statics = record { counters = counters; control = off; ring = ring }

micstat_init_example :
    let (end, (released, s')) = micstat_init make registered statics in
    Ended make registered statics end released s'
micstat_init_example =
    micstat_init_lem make registered statics refl (length-replicate {A = ℕ} 1408 0)

-- As much as fits.
abbrev plain : Scnprintf
plain = record { write = λ limit s. ok (take (limit - 1) s); write_lem = λ limit s. refl }

abbrev rounds : List (Round Readings)
rounds =
    record { on = true; now = readings; period = 1000; should_stop = false }
    ∷ record { on = true; now = readings; period = 500; should_stop = false }
    ∷ record { on = false; now = readings; period = 500; should_stop = true }
    ∷ []

sbstat_thread_example :
    (slept : List ℕ) × (s' : Sampler) × (rows : List (List ℕ)) × (kthread_function exact rounds
        sampler
      ≡ ok (slept, s'))
    × IsSampler s'
    × Follow (λ (now : Readings). now.started) sampler.trace.st_current (executed rounds) rows
    × (samples s'.ring ≡ appends append_if_room (samples sampler.ring) rows)
sbstat_thread_example = sbstat_thread_lem exact rounds sampler sampler-IsSampler

-- The thread finds `on` cleared and returns.
set_off_example :
    ((thread : ℕ) × (m' : Module) × (some 7 ≡ some thread)
      × (◌≡◌ {A = Bool} true false)
      × (set_off true (set_on (some 7) 100 off).0 ≡ ok (m', (set_on (some 7) 100 off).1))
      × ((set_on (some 7) 100 off).1 ≡ thread ∷ [])
      × (m'.on ≡ false))
    ⊎ (((◌≡◌ {A = Option ℕ} (some 7) none) ⊎ (◌≡◌ {A = Bool} true true))
        × (set_off true (set_on (some 7) 100 off).0 ≡ fault))
set_off_example = set_off-set_on (some 7) 100 true off refl

-- Switched on, sampled, read, sampled and switched off.
abbrev events : List (Event Readings)
events =
    store 0 (record { buf = codes "on"; count = 2; thread = 7; now = 100; returned = false })
    ∷ round readings
    ∷ show 2
    ∷ round readings
    ∷ store 0 (record { buf = codes "off"; count = 3; thread = 8; now = 300; returned = false })
    ∷ []

abbrev grant : ℕ → ℕ → Option ℕ
grant config cpu = some (config * 100 + cpu)
