-- ===== src/Micstat/Control.antt =====
-- set_on, set_off and the attributes `ctrl` and `period` of micstat. Here set_off stops the thread
-- before it clears `on`, and timer_start hands the new task to sched_setscheduler before it looks
-- whether there is one.
pub mod Laws
use xstats.Base.{
  ℕ, Bool, true, false, ◌&&◌, List, [], ◌∷◌, ◌++◌, Option, none, some, ltb, leb, if◌then◌else◌,
}
use xstats.Base.Text.{Text, codes, show_ℕ}
use xstats.Kernel.{Result, ok, fault, ◌>>=◌}
use xstats.Xstat.Control.{starts_with}
use xstats.Sbstat.{Trace, ts_reset}

-- `kthread_task`: null, a thread that runs, or one that was stopped, whose memory the kernel took back.
pub data Task : Type 0 where
  null : Task
  running gone : (thread : ℕ) → Task

pub record Module : Type 0 where
  pub on : Bool
  pub period : ℕ
  pub kthread_task : Task
  pub trace : Trace

-- `created` is what kthread_create returns; `none` is an error pointer, which sched_setscheduler
-- goes through. With the module, the thread started.
pub timer_start : (created : Option ℕ) → Module → Result (Module × List ℕ)
timer_start none m = fault
timer_start (some thread) m = ok (record m { kthread_task = running thread }, thread ∷ [])

-- kthread_stop goes through its argument. With the module, the thread stopped.
unfoldable pub stop_task : Task → Module → Result (Module × List ℕ)
stop_task (running thread) m = ok (record m { kthread_task = gone thread }, thread ∷ [])
stop_task null m = fault
stop_task (gone thread) m = fault

abbrev pub timer_cleanup : Module → Result (Module × List ℕ)
timer_cleanup m = stop_task m.kthread_task m

-- Only `ts` has a reset that does something.
pub set_on : Option ℕ → (now : ℕ) → Module → Result (Module × List ℕ)
set_on created now m =
    if m.on
    then ok (m, [])
    else timer_start created (record m { trace = ts_reset now m.trace; on = true })

pub set_off : Module → Result (Module × List ℕ)
set_off m =
    if m.on
    then (timer_cleanup m >>= λ (m', stopped). ok (record m' { on = false }, stopped))
    else ok (m, [])

-- With the module, the threads started and those stopped.
pub micstat_store_ctrl : Option ℕ → ℕ → Text → ℕ → Module → Result (Module × (List ℕ × List ℕ))
micstat_store_ctrl created now buf count m =
    if leb 2 count && starts_with buf (codes "on")
    then (set_on created now m >>= λ (m', started). ok (m', (started, [])))
    else if leb 3 count && starts_with buf (codes "off")
    then (set_off m >>= λ (m', stopped). ok (record m' { on = false }, ([], stopped)))
    else ok (m, ([], []))

pub micstat_show_period : Module → Text
micstat_show_period m = show_ℕ m.period ++ codes "\n"

pub micstat_show_ctrl : Module → Text
micstat_show_ctrl m = if m.on then codes "on\n" else codes "off\n"

-- `parse` is kstrtoul.
pub micstat_store_period : (Text → Option ℕ) → Text → Module → Module
micstat_store_period parse buf m = elim (parse buf) [
  | none ↦ m
  | some tmp ↦ if ltb 100 tmp && ltb tmp 10000 then record m { period = tmp } else m
]

-- A write to an attribute; no thread is refused.
pub data Write : Type 0 where
  ctrl : (thread now : ℕ) (buf : Text) (count : ℕ) → Write
  set_period : (buf : Text) → Write

abbrev pub store : (Text → Option ℕ) → Write → Module → Result (Module × (List ℕ × List ℕ))
store parse (ctrl thread now buf count) m = micstat_store_ctrl (some thread) now buf count m
store parse (set_period buf) m = ok (micstat_store_period parse buf m, ([], []))

abbrev pub stores : (Text → Option ℕ) → List Write → Module → Result (Module × (List ℕ × List ℕ))
stores parse [] m = ok (m, ([], []))
stores parse (w ∷ ws) m = do
  (mid, (started, stopped)) ← store parse w m
  (m', (started', stopped')) ← stores parse ws mid
  ok (m', (started ++ started', stopped ++ stopped'))
