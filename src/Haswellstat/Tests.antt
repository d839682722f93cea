-- ===== src/Haswellstat/Tests.antt =====
-- Tests of haswellstat.
use xstats.Base.{
  true, false, ℕ, ◌-◌, ◌+◌, List, ◌∷◌, Option, none, some, ◌*◌, ◌≡◌, refl, ◌⊎◌, [], arith, take,
  replicate, length-replicate,
}
use xstats.Base.Text.{Text, codes}
use xstats.Kernel.{ok}
use xstats.Kernel.Printf.{Scnprintf}
use xstats.Ring.{Ring}
use xstats.Ring.Refine.{IsValid}
use xstats.Page.Last.{Newest}
use xstats.Sbstat.Show.{line}
use xstats.Device.{Event, round, show, store}
use xstats.Sbstat.{Readings}
use xstats.Sbstat.Load.{Statics}
use xstats.Haswellstat.{ncnt, nbuf, counters}
use xstats.Haswellstat.Buffer.{
  asks_clear, micstat_store_clear, micstat_show_last, samples, haswell_clear_then_last,
}

-- As much as fits.
abbrev plain : Scnprintf
plain = record { write = λ limit s. ok (take (limit - 1) s); write_lem = λ limit s. refl }

-- Two rows held.
abbrev ring : Ring
ring = record {
  buffer = replicate (ncnt * nbuf) 6;
  buffer_base = 127;
  buffer_next = 1;
  buffer_size = 2;
}

ring-IsValid : IsValid ncnt nbuf ring
ring-IsValid = record {
  storage = length-replicate {A = ℕ} 1408 6;
  base_in = omega arith;
  size_in = omega arith;
  next_at = refl;
}

haswell_clear_then_last_example :
    let (ret, ring') = micstat_store_clear (codes "off") 3 ring in
    IsValid ncnt nbuf ring'
    × (((asks_clear (codes "off") 3 ≡ true) × (ret ≡ 3) × (micstat_show_last plain ring' ≡ ok []))
        ⊎ ((asks_clear (codes "off") 3 ≡ false)
            × (ret ≡ 0)
            × (ring' ≡ ring)
            × (text : Text) × (micstat_show_last plain ring' ≡ ok text)
            × Newest line (samples ring) text))
haswell_clear_then_last_example = haswell_clear_then_last plain (codes "off") 3 ring ring-IsValid

abbrev exact : ℕ → ℕ → ℕ → ℕ
exact = λ count enabled running. count

abbrev now : Readings
now = record {
  started = 5000000;
  ended = 7000000;
  therm_status = 0x430000;
  perf_value = λ event. record { total = event; enabled = event; running = event };
}

abbrev statics : Statics
statics = record {
  counters = counters;
  control = record {
    on = false;
    period = 1000;
    kthread_task = none;
    trace = record { st_prev = 0; st_current = 0; st_oh = 0 };
  };
  ring = ring;
}

-- Switched on, sampled, cleared, sampled, read and switched off.
abbrev events : List (Event Readings)
events =
    store 0 (record { buf = codes "on"; count = 2; thread = 7; now = 100; returned = false })
    ∷ round now
    ∷ store 2 (record { buf = codes "1"; count = 1; thread = 8; now = 200; returned = false })
    ∷ round now
    ∷ show 3
    ∷ store 0 (record { buf = codes "off"; count = 3; thread = 9; now = 300; returned = false })
    ∷ []

abbrev make : ℕ → ℕ → Option ℕ
make config cpu = some (config * 100 + cpu)
