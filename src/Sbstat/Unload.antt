-- ===== src/Sbstat/Unload.antt =====
-- micstat_exit of sbstat: set_off, and then the loop over the counters.
use xstats.Base.{
  ℕ, Bool, false, inl, inr, refl, ◌∙◌, Bool-cases, ◌≡◌, ap, List, [], ◌∷◌, Option, none, some, true,
  false, ◌⊎◌,
}
use xstats.Base.Text.{Text}
use xstats.Kernel.{Result, ok, fault, ◌>>=◌}
use xstats.Rollback.Laws.{exit_counters_lem}
use xstats.Sbstat.{Counter}
use xstats.Sbstat.Load.{exit_counters}
use xstats.Sbstat.Load.Events.{held, counters-Keeps}
use xstats.Sbstat.Control.{Module, Write, timer_cleanup, set_off, stores}
use xstats.Sbstat.Control.Laws.{IsControlled, threads, sbstat_stores-IsControlled, set_off-stops}

-- The threads stopped, and the events released.
pub micstat_exit :
    (returned : Bool) → Module → List Counter → Result (List ℕ × (List Counter × List ℕ))
micstat_exit returned m cs = do (m', stopped) ← set_off returned m; ok (stopped, exit_counters cs)

-- Unloading stops the thread that runs, where it does not return by itself, and releases the events that the counters hold.
pub micstat_exit-stops :
    (m : Module) (cs : List Counter)
    → IsControlled m
    → (stopped : List ℕ) × (cs' : List Counter) × (micstat_exit false m cs
        ≡ ok (stopped, (cs', held cs)))
      × (held cs' ≡ [])
      × (threads m ≡ stopped)
      × (((m.on ≡ false) × (stopped ≡ []))
          ⊎ ((thread : ℕ) × (m.on ≡ true)
              × (m.kthread_task ≡ some thread)
              × (stopped ≡ thread ∷ [])))
unfolding micstat_exit
micstat_exit-stops m cs v =
    let (released, freed) = exit_counters_lem (counters-Keeps (λ config cpu. none)) cs in
    let (m', stopped, run, v', which, off, gone) = set_off-stops m v in
    (
      stopped,
      (exit_counters cs).0,
      rw run (ap (λ es. ok (stopped, ((exit_counters cs).0, es))) released),
      freed,
      gone,
      which,
    )

-- Whether or not the thread returns by itself, where the module is off.
micstat_exit-off :
    (returned : Bool) (m : Module) (cs : List Counter)
    → m.on ≡ false
    → micstat_exit returned m cs ≡ micstat_exit false m cs
unfolding micstat_exit set_off
micstat_exit-off returned m cs off = rw off refl

micstat_exit-fault :
    (m : Module) (cs : List Counter) → IsControlled m → m.on ≡ true → micstat_exit true m cs ≡ fault
unfolding micstat_exit set_off timer_cleanup
micstat_exit-fault m cs v on = elim v.has_task [
  | inl off ↦ absurd (cc)
  | inr (thread, e) ↦ rw (on, e) refl
]

-- Unloading goes as far as the thread that runs has not returned by itself.
pub micstat_exit_cases :
    (returned : Bool) (m : Module) (cs : List Counter)
    → IsControlled m
    → ((stopped : List ℕ) × (cs' : List Counter) × (micstat_exit returned m cs
          ≡ ok (stopped, (cs', held cs)))
        × (held cs' ≡ [])
        × (threads m ≡ stopped))
      ⊎ ((returned ≡ true) × (m.on ≡ true) × (micstat_exit returned m cs ≡ fault))
micstat_exit_cases false m cs v =
    let (stopped, cs', run, freed, gone, which) = micstat_exit-stops m cs v in
    inl (stopped, cs', run, freed, gone)
micstat_exit_cases true m cs v = elim (Bool-cases m.on) [
  | inl on ↦ inr (refl, on, micstat_exit-fault m cs v on)
  | inr off ↦
      let (stopped, cs', run, freed, gone, which) = micstat_exit-stops m cs v in
      inl (stopped, cs', micstat_exit-off true m cs off ∙ run, freed, gone)
]

-- After any writes to `ctrl` and `period`, where no thread is refused and none returns
-- by itself, unloading succeeds, stops the
-- thread that the module has while it is on, and no other, releases the events that the counters hold,
-- in order, and keeps none.
pub sbstat_exit_lem :
    (parse : Text → Option ℕ) (ws : List Write) (m : Module) (cs : List Counter)
    → IsControlled m
    → (m' : Module) × (before : List ℕ × List ℕ) × (stopped : List ℕ) × (cs' : List Counter)
      × (stores parse ws m ≡ ok (m', before))
      × (micstat_exit false m' cs ≡ ok (stopped, (cs', held cs)))
      × (held cs' ≡ [])
      × (((m'.on ≡ false) × (stopped ≡ []))
          ⊎ ((thread : ℕ) × (m'.on ≡ true)
              × (m'.kthread_task ≡ some thread)
              × (stopped ≡ thread ∷ [])))
sbstat_exit_lem parse ws m cs v =
    let (m', started, before, run, v', count) = sbstat_stores-IsControlled parse ws m v in
    let (stopped, cs', exits, freed, gone, which) = micstat_exit-stops m' cs v' in
    (m', (started, before), stopped, cs', run, exits, freed, which)
