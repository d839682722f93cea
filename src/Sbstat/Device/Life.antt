-- ===== src/Sbstat/Device/Life.antt =====
-- The life of sbstat: loaded, used in any way, unloaded.
use mathlib.Core.List.{Sublist}
use mathlib.Core.List.Sublist
use mathlib.Core.Path.{subst}
use xstats.Base.{
  ℕ, Bool, true, false, ◌*◌, ◌≡◌, ◌≢◌, ap, ◌∙◌, ◌⊎◌, inl, inr, List, [], ◌++◌, map, concat, Option,
  none, All, length, if◌then◌else◌,
}
use xstats.Base.Text.{Text}
use xstats.Kernel.{Result, ok, fault}
use xstats.Rollback.{cnt_init_failed, class_failed, loaded}
use xstats.Device
use xstats.Device.{Event, ClassAttribute, Outcome, text_of}
use xstats.Device.Laws.{Keeps, run-Goes, Serves, IsAllowed, time_of, FitsPage}
use xstats.Sbstat.{Counter, Readings, ncnt, nbuf, counters}
use xstats.Sbstat.Buffer.{samples}
use xstats.Sbstat.Show.{line}
use xstats.Sbstat.Thread
use xstats.Sbstat.Control.{timer_start}
use xstats.Sbstat.Load.{Statics, micstat_init}
use xstats.Sbstat.Load.Events.{IsMade, held, handed}
use xstats.Sbstat.Load.Ready.{micstat_init-IsReady}
use xstats.Sbstat.Unload.{micstat_exit, micstat_exit_cases}
use xstats.Sbstat.Device.{roll, stat, run}
use xstats.Sbstat.Device.Laws.{view}

-- What a use of a module comes to, with the place of its `stat`, the rows brought and those delivered.
abbrev pub Used : ℕ → Outcome → Statics → List (List ℕ) → List (List ℕ) → Type 0
Used stat o s brought delivered =
    (map time_of brought ≡ o.times)
    × (text_of stat o.replies ≡ concat (map line delivered))
    × Sublist (delivered ++ samples s.ring) brought
    × All FitsPage o.replies

-- What unloading does, with the threads that were started and those stopped before it: it faults where
-- the thread that runs returns by itself.
abbrev pub Unloads : Bool → List ℕ → List ℕ → List ℕ → Statics → Type 0
Unloads returned given started stopped s =
    ((last : List ℕ) × (cs : List Counter) × (micstat_exit returned s.control s.counters
        ≡ ok (last, (cs, given)))
      × (held cs ≡ [])
      × (started ≡ stopped ++ last))
    ⊎ ((returned ≡ true)
        × (s.control.on ≡ true)
        × (micstat_exit returned s.control s.counters ≡ fault))

-- What a life comes to, by the way loading ends.
abbrev pub Lives :
    ℕ → (ℕ → ℕ → Option ℕ) → ℕ → Bool → (Statics → Result (Outcome × Statics)) → Statics → Type 0
Lives stat make registered returned run s =
    let (end, (released, s')) = micstat_init make registered s in
    ((end ≡ cnt_init_failed)
      × (held s'.counters ≡ [])
      × (config : ℕ) × (cpu : ℕ) × (make config cpu ≡ none))
    ⊎ ((end ≡ class_failed) × (registered ≢ 0))
    ⊎ ((end ≡ loaded)
        × All (IsMade make) s.counters
        × (o : Outcome) × (s'' : Statics) × (brought : List (List ℕ)) × (delivered : List (List ℕ))
        × (run s' ≡ ok (o, s''))
        × Used stat o s'' brought delivered
        × Unloads returned (handed make s.counters) o.started o.stopped s'')

unloads :
    {stat : ℕ} (returned : Bool) (given : List ℕ) (o : Outcome) (s s' : Statics)
    → s.control.on ≡ false
    → held s.counters ≡ given
    → Keeps (view stat) s o s'
    → Unloads returned given o.started o.stopped s'
unloads returned given o s s' off holds k =
    elim (micstat_exit_cases returned s'.control s'.counters k.in_order.controlled) [
      | inr faults ↦ inr faults
      | inl (last, cs, exits, freed, gone) ↦ inl (
        last,
        cs,
        exits ∙ ap (λ es. ok (last, (cs, es))) (k.holds ∙ holds),
        freed,
        subst
              (λ b.
                (if b then timer_start s.control.kthread_task else []) ++ o.started
                ≡ o.stopped ++ (if s'.control.on then timer_start s'.control.kthread_task else []))
              off k.counted
            ∙ ap (λ l. o.stopped ++ l) gone,
      )
    ]

pub Serves-Lives :
    (stat : ℕ) (roll : Readings → Statics → Result (List ℕ × Statics))
    (table : List (ClassAttribute Statics))
    → Serves (view stat) roll table
    → (make : ℕ → ℕ → Option ℕ) (registered : ℕ) (returned : Bool) (events : List (Event Readings))
      (s : Statics)
    → All (IsAllowed (view stat)) events
    → s.counters ≡ counters
    → length s.ring.buffer ≡ ncnt * nbuf
    → Lives stat make registered returned (Device.run roll table events) s
Serves-Lives stat roll table serves make registered returned events s allowed same storage =
    elim (micstat_init-IsReady make registered s same storage) [
      | inl refused ↦ inl refused
      | inr (inl failed) ↦ inr (inl failed)
      | inr (inr (e, made, ready)) ↦
          let s' = (micstat_init make registered s).1.1 in
          let (o, s'', uses, k) =
            run-Goes (view stat) serves events s' allowed
              (record { sampled = ready.sampled; controlled = ready.controlled }) in
          inr (
            inr (
              e,
              made,
              o,
              s'',
              k.brought,
              k.delivered,
              uses,
              (
                k.timed,
                k.printed,
                subst (λ q. Sublist (k.delivered ++ samples s''.ring) (q ++ k.brought)) ready.empty
                    k.kept,
                k.fits,
              ),
              unloads returned (handed make s.counters) o s' s'' ready.off ready.holds k,
            ))
    ]
