-- ===== src/Sbstat/Device.antt =====
-- sbstat as a device: the table micstat_attr, with the functions that sysfs calls, and a round of the
-- thread. haswellstat has the same functions and two more attributes. The values that the functions
-- return to sysfs are left out, but for what is read.
pub mod Laws
pub mod Life
use xstats.Base.{ℕ, Bool, true, false, ◌&&◌, List, [], ◌∷◌, Option, none, some, if◌then◌else◌}
use xstats.Base.Text.{Text, codes}
use xstats.Kernel.{Result, ok, ◌>>=◌}
use xstats.Kernel.Printf.{Scnprintf}
use xstats.Device
use xstats.Device.{Request, ClassAttribute, Event, Outcome}
use xstats.Sbstat.{Readings}
use xstats.Sbstat.Buffer.{Sampler}
use xstats.Sbstat.Show.{micstat_show_stat}
use xstats.Sbstat.Control.{
  micstat_store_ctrl, micstat_store_period, micstat_show_ctrl, micstat_show_period,
}
use xstats.Sbstat.Load.{Statics}
use xstats.Sbstat.Thread

abbrev pub sampler : Statics → Sampler
sampler s = record { trace = s.control.trace; counters = s.counters; ring = s.ring }

abbrev pub with_sampler : Sampler → Statics → Statics
with_sampler sampled s = record {
  counters = sampled.counters;
  control = record s.control { trace = sampled.trace };
  ring = sampled.ring;
}

abbrev pub runs : Option ℕ → Bool
runs (some thread) = true
runs none = false

-- What the loop of kthread_function does between two sleeps, where a thread is in it; `roll_buffer` is
-- the module's.
pub roll : (Readings → Sampler → Result Sampler) → Readings → Statics → Result (List ℕ × Statics)
roll roll_buffer now s =
    let round : Result (List ℕ × Statics) = (do
      sampled ← roll_buffer now (sampler s)
      ok (now.started ∷ [], with_sampler sampled s)) in
    if runs s.control.kthread_task && s.control.on then round else ok ([], s)

pub store_ctrl : Request → Statics → Result ((List ℕ × List ℕ) × Statics)
store_ctrl req s = do
  (control, changed) ←
      micstat_store_ctrl (some req.thread) req.now req.returned req.buf req.count s.control
  ok (changed, record s { control = control })

pub store_period : (Text → Option ℕ) → Request → Statics → Result ((List ℕ × List ℕ) × Statics)
store_period parse req s =
    ok (([], []), record s { control = micstat_store_period parse req.buf s.control })

pub show_stat : Scnprintf → Statics → Result (Text × Statics)
show_stat printf s = do
  (text, ring) ← micstat_show_stat printf s.ring
  ok (text, record s { ring = ring })

abbrev pub show_ctrl : Statics → Result (Text × Statics)
show_ctrl s = ok (micstat_show_ctrl s.control, s)

abbrev pub show_period : Statics → Result (Text × Statics)
show_period s = ok (micstat_show_period s.control, s)

module _ (printf : Scnprintf) (parse : Text → Option ℕ) where
  abbrev pub micstat_attr : List (ClassAttribute Statics)
  micstat_attr =
      record { name = codes "ctrl"; mode = 0x1b6; show = some show_ctrl; store = some store_ctrl }
      ∷ record {
        name = codes "period";
        mode = 0x1b6;
        show = some show_period;
        store = some (store_period parse);
      }
      ∷ record { name = codes "stat"; mode = 0x124; show = some (show_stat printf); store = none }
      ∷ []

  abbrev pub run : (ℕ → ℕ → ℕ → ℕ) → List (Event Readings) → Statics → Result (Outcome × Statics)
  run scale = Device.run (roll (Thread.roll scale)) micstat_attr

-- The place of `stat`.
abbrev pub stat : ℕ
stat = 2
