-- ===== src/Micstat/Device.antt =====
-- micstat as a device: the table micstat_attr, with the functions that sysfs calls, and a round of the
-- thread. The values that the functions return to sysfs are left out, but for what is read.
pub mod Laws
pub mod Life
use xstats.Base.{ℕ, Bool, true, false, ◌&&◌, List, [], ◌∷◌, Option, none, some, if◌then◌else◌}
use xstats.Base.Text.{Text, codes}
use xstats.Kernel.{Result, ok, ◌>>=◌}
use xstats.Kernel.Printf.{Scnprintf}
use xstats.Device
use xstats.Device.{Request, ClassAttribute, Event, Outcome}
use xstats.Micstat.Smc.{Bus}
use xstats.Micstat.Counters.{Readings}
use xstats.Micstat.Buffer.{Sampler, roll_buffer, micstat_store_clear}
use xstats.Micstat.Show.{micstat_show_stat, micstat_show_last}
use xstats.Micstat.Control.{
  Task, null, running, gone, micstat_store_ctrl, micstat_store_period, micstat_show_ctrl,
  micstat_show_period,
}
use xstats.Micstat.Load.{Statics}

-- The statics, and the registers asked for on the bus so far.
pub record Machine : Type 0 where
  pub statics : Statics
  pub asked : List ℕ

abbrev pub sampler : Machine → Sampler
sampler m = record {
  device = record { trace = m.statics.control.trace; lastdie = m.statics.lastdie; asked = m.asked };
  counters = m.statics.counters;
  ring = m.statics.ring;
}

abbrev pub with_sampler : Sampler → Machine → Machine
with_sampler s m = record {
  statics = record m.statics {
    control = record m.statics.control { trace = s.device.trace };
    lastdie = s.device.lastdie;
    counters = s.counters;
    ring = s.ring;
  };
  asked = s.device.asked;
}

abbrev pub runs : Task → Bool
runs (running thread) = true
runs null = false
runs (gone thread) = false

-- What the loop of kthread_function does between two sleeps, where a thread is in it.
pub roll : (ℕ → ℕ → ℕ → ℕ) → Bus → Readings → Machine → Result (List ℕ × Machine)
roll scale smc now m =
    let round : Result (List ℕ × Machine) = (do
      (ret, s) ← roll_buffer scale smc m.statics.pll now (sampler m)
      ok (now.started ∷ [], with_sampler s m)) in
    if runs m.statics.control.kthread_task && m.statics.control.on then round else ok ([], m)

-- micstat_show_clear prints nothing.
abbrev pub show_clear : Machine → Result (Text × Machine)
show_clear m = ok ([], m)

module _ (printf : Scnprintf) (parse : Text → Option ℕ) where
  pub store_ctrl : Request → Machine → Result ((List ℕ × List ℕ) × Machine)
  store_ctrl req m = do
    (control, changed) ←
        micstat_store_ctrl (some req.thread) req.now req.buf req.count m.statics.control
    ok (changed, record m { statics = record m.statics { control = control } })

  pub store_period : Request → Machine → Result ((List ℕ × List ℕ) × Machine)
  store_period req m =
      let control = micstat_store_period parse req.buf m.statics.control in
      ok (([], []), record m { statics = record m.statics { control = control } })

  pub store_clear : Request → Machine → Result ((List ℕ × List ℕ) × Machine)
  store_clear req m =
      let (ret, ring) = micstat_store_clear req.buf req.count m.statics.ring in
      ok (([], []), record m { statics = record m.statics { ring = ring } })

  pub show_stat : Machine → Result (Text × Machine)
  show_stat m = do
    (text, ring) ← micstat_show_stat printf m.statics.ring
    ok (text, record m { statics = record m.statics { ring = ring } })

  pub show_last : Machine → Result (Text × Machine)
  show_last m = micstat_show_last printf m.statics.ring >>= λ text. ok (text, m)

  abbrev pub micstat_attr : List (ClassAttribute Machine)
  micstat_attr =
      record {
        name = codes "ctrl";
        mode = 0x1b6;
        show = some (λ m. ok (micstat_show_ctrl m.statics.control, m));
        store = some store_ctrl;
      }
      ∷ record {
        name = codes "period";
        mode = 0x1b6;
        show = some (λ m. ok (micstat_show_period m.statics.control, m));
        store = some store_period;
      }
      ∷ record {
        name = codes "clear";
        mode = 0x1b6;
        show = some show_clear;
        store = some store_clear;
      }
      ∷ record { name = codes "stat"; mode = 0x124; show = some show_stat; store = none }
      ∷ record { name = codes "last"; mode = 0x124; show = some show_last; store = none }
      ∷ []

  -- The thread and the table.
  abbrev pub run :
      (ℕ → ℕ → ℕ → ℕ) → Bus → List (Event Readings) → Machine → Result (Outcome × Machine)
  run scale smc = Device.run (roll scale smc) micstat_attr

-- The place of `stat`.
abbrev pub stat : ℕ
stat = 3
