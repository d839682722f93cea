-- ===== src/Haswellstat/Device.antt =====
-- haswellstat as a device: its table micstat_attr. The functions are those of sbstat, and those of
-- `clear` and `last`.
pub mod Life
use xstats.Base.{ℕ, List, [], ◌∷◌, Option, none, some}
use xstats.Base.Text.{Text, codes}
use xstats.Kernel.{Result, ok, ◌>>=◌}
use xstats.Kernel.Printf.{Scnprintf}
use xstats.Device
use xstats.Device.{Request, ClassAttribute, Event, Outcome}
use xstats.Sbstat.{Readings}
use xstats.Sbstat.Load.{Statics}
use xstats.Sbstat.Device.{roll, store_ctrl, store_period, show_stat, show_ctrl, show_period}
use xstats.Haswellstat.Thread
use xstats.Haswellstat.Buffer.{micstat_store_clear, micstat_show_last}

pub store_clear : Request → Statics → Result ((List ℕ × List ℕ) × Statics)
store_clear req s =
    let (ret, ring) = micstat_store_clear req.buf req.count s.ring in
    ok (([], []), record s { ring = ring })

pub show_last : Scnprintf → Statics → Result (Text × Statics)
show_last printf s = micstat_show_last printf s.ring >>= λ text. ok (text, s)

-- micstat_show_clear prints nothing.
abbrev pub show_clear : Statics → Result (Text × Statics)
show_clear s = ok ([], s)

module _ (printf : Scnprintf) (parse : Text → Option ℕ) where
  abbrev pub micstat_attr : List (ClassAttribute Statics)
  micstat_attr =
      record { name = codes "ctrl"; mode = 0x1b6; show = some show_ctrl; store = some store_ctrl }
      ∷ record {
        name = codes "period";
        mode = 0x1b6;
        show = some show_period;
        store = some (store_period parse);
      }
      ∷ record {
        name = codes "clear";
        mode = 0x1b6;
        show = some show_clear;
        store = some store_clear;
      }
      ∷ record { name = codes "stat"; mode = 0x124; show = some (show_stat printf); store = none }
      ∷ record { name = codes "last"; mode = 0x124; show = some (show_last printf); store = none }
      ∷ []

  abbrev pub run : (ℕ → ℕ → ℕ → ℕ) → List (Event Readings) → Statics → Result (Outcome × Statics)
  run scale = Device.run (roll (Thread.roll scale)) micstat_attr

-- The place of `stat`.
abbrev pub stat : ℕ
stat = 3
