-- ===== src/Micstat/Device/Life.antt =====
-- The life of micstat: loaded, used in any way, unloaded.
use mathlib.Core.List.{Sublist}
use mathlib.Core.Path.{subst}
use xstats.Base.{
  ℕ, ◌≤◌, ◌≡◌, refl, ap, ◌∙◌, ◌⊎◌, inl, inr, Bool, true, false, List, [], ◌∷◌, ◌++◌, map, concat,
  Option, none, ◌≢◌, All, append-nil,
}
use xstats.Base.Text.{Text}
use xstats.Kernel.{ok, fault}
use xstats.Kernel.Printf.{Scnprintf}
use xstats.Rollback.{Loaded, cnt_init_failed, class_failed, loaded, exit_counters}
use xstats.Rollback.Laws.{exit_counters_lem}
use xstats.Device.{Event, round, show, store, Outcome, text_of}
use xstats.Device.Laws.{IsAllowed, run-Goes, time_of, FitsPage}
use xstats.Micstat.Smc.{Bus}
use xstats.Micstat.Counters.{Counter, Readings, counters}
use xstats.Micstat.Buffer.{samples}
use xstats.Micstat.Show.{line}
use xstats.Micstat.Control.{Task, null, running, gone}
use xstats.Micstat.Control.Laws.{IsControlled, InStep, threads}
use xstats.Micstat.Load.{nr_cpus_mic, Statics, exit, micstat_init, micstat_exit}
use xstats.Micstat.Load.Events.{held, handed, counters-Keeps}
use xstats.Micstat.Load.Fresh.{IsFresh}
use xstats.Micstat.Load.Ready.{IsReady, micstat_init-IsReady}
use xstats.Micstat.Load.Exit.{stop_or_fault}
use xstats.Micstat.Device.{Machine, stat, run}
use xstats.Micstat.Device.Laws.{IsMachine, view, micstat-Serves}

-- What unloading does, with the threads that were started and those stopped before it.
abbrev pub Unloads : List ℕ → List ℕ → List ℕ → Statics → Type 0
Unloads given started stopped s =
    ((s.control.on ≡ true)
      × (thread : ℕ) × (cs : List Counter) × (micstat_exit s.control s.counters
          ≡ ok (thread ∷ [], (cs, given)))
      × (held cs ≡ [])
      × (started ≡ stopped ++ (thread ∷ [])))
    ⊎ ((s.control.on ≡ false) × (micstat_exit s.control s.counters ≡ fault) × (started ≡ stopped))

-- What a use of the module comes to, with the rows brought and those delivered.
abbrev pub Used : Outcome → Statics → List (List ℕ) → List (List ℕ) → Type 0
Used o s brought delivered =
    (map time_of brought ≡ o.times)
    × (text_of stat o.replies ≡ concat (map line delivered))
    × Sublist (delivered ++ samples s.ring) brought
    × All FitsPage o.replies

IsReady-IsMachine :
    (given asked : List ℕ) (s : Statics)
    → IsReady given s
    → IsMachine (record { statics = s; asked = asked })
IsReady-IsMachine given asked s v = record {
  sampled = record { events = v.events; shape = v.shape; width = v.width; in_order = v.in_order };
  controlled = v.controlled;
}

-- A thread is counted just while the module is on.
threads_off : (task : Task) → InStep false task → threads task ≡ []
threads_off (running thread) h = absurd h
threads_off null h = refl
threads_off (gone thread) h = refl

unloads :
    (given started stopped : List ℕ) (s : Statics)
    → IsControlled s.control
    → held s.counters ≡ given
    → started ≡ stopped ++ threads s.control.kthread_task
    → Unloads given started stopped s
unloads given started stopped s v holds count =
    let (released, freed) = exit_counters_lem (counters-Keeps 0 (λ config cpu. none)) s.counters in
    let cs = (exit_counters exit s.counters).0 in
    elim (stop_or_fault s.control.on s.control.kthread_task s.control s.counters refl refl
      v.in_step) [
        | inl (on, thread, task, exits) ↦ inl (
          on,
          thread,
          cs,
          exits ∙ ap (λ es. ok (thread ∷ [], (cs, es))) (released ∙ holds),
          freed,
          count ∙ ap (λ t. stopped ++ threads t) task,
        )
        | inr (off, exits) ↦ inr (
          off,
          exits,
          count
              ∙ ap (λ l. stopped ++ l)
                  (threads_off s.control.kthread_task
                    (subst (λ b. InStep b s.control.kthread_task) off v.in_step))
              ∙ append-nil stopped,
        )
      ]

-- set_off of micstat stops the thread before it clears `on`, so that nothing is asked of a write.
All-IsAllowed : {R : Type 0} (events : List (Event R)) → All (IsAllowed view) events
All-IsAllowed [] = tt
All-IsAllowed (round now ∷ events) = (tt, All-IsAllowed events)
All-IsAllowed (show place ∷ events) = (tt, All-IsAllowed events)
All-IsAllowed (store place req ∷ events) = (tt, All-IsAllowed events)

-- On at most 244 cpus, where no thread is refused, loading a fresh module does not fault. It fails only
-- where the kernel refuses an event, and then none is held, or the class; else no sequence of rounds of its thread and of calls of its attributes, `ctrl`, `period`,
-- `clear`, `stat` and `last`, faults: every reply fits a page; the thread brings one row for each of
-- its rounds, with the time of that round; what the readers of `stat` get together is the whole lines
-- of some rows, and these, and after them the rows held at the end, are rows brought, none twice, in
-- that order. Then, while the module is on, unloading stops the one thread started and not stopped
-- before, and releases just the events handed out at loading, in order; while it is off, unloading
-- faults, and every thread started was stopped.
pub micstat_life_lem :
    (printf : Scnprintf) (parse : Text → Option ℕ) (scale : ℕ → ℕ → ℕ → ℕ) (smc : Bus) (nr : ℕ)
    (make : ℕ → ℕ → Option ℕ) (registered : ℕ) (mapped : Bool) (scratch4 : ℕ)
    (events : List (Event Readings)) (asked : List ℕ) (s : Statics)
    → nr ≤ nr_cpus_mic
    → IsFresh s
    → s.counters ≡ counters nr
    → (end : Loaded) × (released : List ℕ) × (s' : Statics) × (micstat_init nr make registered
          mapped scratch4 s
        ≡ ok (end, (released, s')))
      × (((end ≡ cnt_init_failed)
            × (held s'.counters ≡ [])
            × (config : ℕ) × (cpu : ℕ) × (make config cpu ≡ none))
          ⊎ ((end ≡ class_failed) × (registered ≢ 0))
          ⊎ ((end ≡ loaded)
              × (o : Outcome) × (m : Machine) × (brought : List (List ℕ)) × (delivered : List
                  (List ℕ))
              × (run printf parse scale smc events (record { statics = s'; asked = asked })
                  ≡ ok (o, m))
              × Used o m.statics brought delivered
              × Unloads (handed nr make s.counters) o.started o.stopped m.statics))
micstat_life_lem printf parse scale smc nr make registered mapped scratch4 events asked s few v
      same =
    let (end, released, s', loads, which) =
      micstat_init-IsReady nr make registered mapped scratch4 s few v same in
    (
      end,
      released,
      s',
      loads,
      elim which [
        | inl refused ↦ inl refused
        | inr (inl failed) ↦ inr (inl failed)
        | inr (inr (e, ready)) ↦
            let given = handed nr make s.counters in
            let (o, m, uses, k) =
              run-Goes view (micstat-Serves printf parse scale smc) events
                (record { statics = s'; asked = asked }) (All-IsAllowed events)
                (IsReady-IsMachine given asked s' ready) in
            inr (
              inr (
                e,
                o,
                m,
                k.brought,
                k.delivered,
                uses,
                (
                  k.timed,
                  k.printed,
                  subst (λ q. Sublist (k.delivered ++ samples m.statics.ring) (q ++ k.brought))
                      ready.empty k.kept,
                  k.fits,
                ),
                unloads given o.started o.stopped m.statics k.in_order.controlled
                    (k.holds ∙ ready.holds)
                    (subst
                      (λ t.
                        threads t ++ o.started
                        ≡ o.stopped ++ threads m.statics.control.kthread_task)
                      ready.no_task k.counted),
              ))
      ],
    )
