-- ===== src/Micstat/Load/Exit.antt =====
-- Unloading micstat after any use of its attributes.
use xstats.Base.{
  ℕ, ◌≡◌, refl, ap, ◌∙◌, ◌⊎◌, inl, inr, Bool, true, false, List, [], ◌∷◌, Option, none,
}
use xstats.Kernel.{ok, fault}
use xstats.Rollback.{exit_counters}
use xstats.Rollback.Laws.{exit_counters_lem}
use xstats.Micstat.Counters.{Counter}
use xstats.Micstat.Control.{Module, Task, null, running, gone, stop_task}
use xstats.Micstat.Control.Laws.{IsControlled, InStep}
use xstats.Micstat.Load.{exit, started, micstat_exit}
use xstats.Micstat.Control.{Write, stores}
use xstats.Micstat.Control.Laws.{micstat_stores-IsControlled}
use xstats.Base.Text.{Text}
use xstats.Micstat.Load.Events.{held, counters-Keeps}

pub stop_or_fault :
    (on : Bool) (task : Task) (m : Module) (cs : List Counter)
    → m.on ≡ on
    → m.kthread_task ≡ task
    → InStep on task
    → ((m.on ≡ true)
        × (thread : ℕ) × (m.kthread_task ≡ running thread)
        × (micstat_exit m cs ≡ ok (thread ∷ [], exit_counters exit cs)))
      ⊎ ((m.on ≡ false) × (micstat_exit m cs ≡ fault))
unfolding micstat_exit stop_task
stop_or_fault true (running thread) m cs o e s = inl (o, thread, e, rw e refl)
stop_or_fault true null m cs o e s = absurd s
stop_or_fault true (gone t) m cs o e s = absurd s
stop_or_fault false (running t) m cs o e s = absurd s
stop_or_fault false null m cs o e s = inr (o, rw e refl)
stop_or_fault false (gone t) m cs o e s = inr (o, rw e refl)

-- After any writes to `ctrl` and `period`, where no thread is refused: while the module is on,
-- unloading stops its thread, releases the events that the counters hold, in order, and keeps none;
-- while it is off, unloading goes through a null pointer or the task of a thread that is gone.
pub micstat_exit_lem :
    (parse : Text → Option ℕ) (ws : List Write) (m : Module) (cs : List Counter)
    → IsControlled m
    → (m' : Module) × (all : List ℕ × List ℕ) × (stores parse ws m ≡ ok (m', all))
      × (((m'.on ≡ true)
            × (thread : ℕ) × (cs' : List Counter) × (micstat_exit m' cs
                ≡ ok (thread ∷ [], (cs', held cs)))
            × (held cs' ≡ []))
          ⊎ ((m'.on ≡ false) × (micstat_exit m' cs ≡ fault)))
micstat_exit_lem parse ws m cs v =
    let (m', started, stopped, run, v', count) = micstat_stores-IsControlled parse ws m v in
    let (released, freed) = exit_counters_lem (counters-Keeps 0 (λ config cpu. none)) cs in
    (
      m',
      (started, stopped),
      run,
      elim (stop_or_fault m'.on m'.kthread_task m' cs refl refl v'.in_step) [
        | inl (on, thread, task, exits) ↦ inl (
          on,
          thread,
          (exit_counters exit cs).0,
          exits ∙ ap (λ es. ok (thread ∷ [], ((exit_counters exit cs).0, es))) released,
          freed,
        )
        | inr off ↦ inr off
      ],
    )
