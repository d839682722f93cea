-- ===== src/Sbstat/Control.antt =====
-- set_on, set_off and the attributes `ctrl` and `period` of sbstat.
pub mod Laws
use xstats.Base.{
  ℕ, Bool, true, false, ◌&&◌, List, [], ◌∷◌, ◌++◌, Option, none, some, ltb, leb, if◌then◌else◌,
}
use xstats.Base.Text.{Text, codes, show_ℕ}
use xstats.Kernel.{Result, ok, fault, ◌>>=◌}
use xstats.Xstat.Control.{starts_with}
use xstats.Sbstat.{Trace, ts_reset}

-- `on`, `period`, `kthread_task` and the trace that set_on resets. The task is kept after a stop; an
-- error pointer is `none`, and is not looked at before kthread_stop.
pub record Module : Type 0 where
  pub on : Bool
  pub period : ℕ
  pub kthread_task : Option ℕ
  pub trace : Trace

-- `created` is what kthread_create returns; the thread is woken, if there is one.
abbrev pub timer_start : Option ℕ → List ℕ
timer_start none = []
timer_start (some thread) = thread ∷ []

-- `now` is the time at the resets, of which only that of `ts` does something. With the module, the
-- thread started.
pub set_on : Option ℕ → ℕ → Module → Module × List ℕ
set_on created now m = if m.on then (m, []) else (
  record m { on = true; trace = ts_reset now m.trace; kthread_task = created },
  timer_start created,
)

-- timer_cleanup: kthread_stop goes through the error pointer of a task that was not made, and through
-- one whose thread has returned, of which the kernel took back the memory.
unfoldable pub timer_cleanup : (returned : Bool) → Option ℕ → Result (List ℕ)
timer_cleanup returned none = fault
timer_cleanup true (some thread) = fault
timer_cleanup false (some thread) = ok (thread ∷ [])

-- `on` is cleared under `ctrl_lock`. The lock is let go before kthread_stop is called, and a thread that
-- takes it in between leaves its loop: `returned` tells whether it does. With the module, the thread
-- stopped.
unfoldable pub set_off : (returned : Bool) → Module → Result (Module × List ℕ)
set_off returned m =
    let cleared : Module = record m { on = false } in
    if m.on
    then (timer_cleanup returned m.kthread_task >>= λ stopped. ok (cleared, stopped))
    else ok (cleared, [])

-- Each word returns at once. With the module, the threads started and those stopped.
pub micstat_store_ctrl :
    Option ℕ → ℕ → (returned : Bool) → Text → ℕ → Module → Result (Module × (List ℕ × List ℕ))
micstat_store_ctrl created now returned buf count m =
    if leb 2 count && starts_with buf (codes "on")
    then (let (m', started) = set_on created now m in ok (m', (started, [])))
    else if leb 3 count && starts_with buf (codes "off")
    then (set_off returned m >>= λ (m', stopped). ok (m', ([], stopped)))
    else ok (m, ([], []))

pub micstat_show_period : Module → Text
micstat_show_period m = show_ℕ m.period ++ codes "\n"

pub micstat_show_ctrl : Module → Text
micstat_show_ctrl m = if m.on then codes "on\n" else codes "off\n"

-- `parse` is kstrtoul.
pub micstat_store_period : (Text → Option ℕ) → Text → Module → Module
micstat_store_period parse buf m = elim (parse buf) [
  | none ↦ m
  | some tmp ↦ if ltb 100 tmp && ltb tmp 10000 then record m { period = tmp } else m
]

-- A write to an attribute.
pub data Write : Type 0 where
  ctrl : (thread now : ℕ) (buf : Text) (count : ℕ) → Write
  set_period : (buf : Text) → Write

-- No thread is refused, and none returns by itself.
abbrev pub store : (Text → Option ℕ) → Write → Module → Result (Module × (List ℕ × List ℕ))
store parse (ctrl thread now buf count) m = micstat_store_ctrl (some thread) now false buf count m
store parse (set_period buf) m = ok (micstat_store_period parse buf m, ([], []))

abbrev pub stores : (Text → Option ℕ) → List Write → Module → Result (Module × (List ℕ × List ℕ))
stores parse [] m = ok (m, ([], []))
stores parse (w ∷ ws) m = do
  (mid, (started, stopped)) ← store parse w m
  (m', (started', stopped')) ← stores parse ws mid
  ok (m', (started ++ started', stopped ++ stopped'))
