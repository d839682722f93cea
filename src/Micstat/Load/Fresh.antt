-- ===== src/Micstat/Load/Fresh.antt =====
-- Loading micstat: what becomes of the events and the statics on every way out of micstat_init.
use xstats.Base.{
  ℕ, All, ◌≤◌, ◌≡◌, ◌≢◌, refl, ◌⊎◌, inl, inr, Bool, List, [], Option, arith, length, ◌*◌,
}
use xstats.Kernel.{ok}
use xstats.Rollback.{Loaded, cnt_init_failed, class_failed, loaded, exit_counters, load}
use xstats.Rollback.Laws.{Any, All-weaken, Any-weaken, load_lem, load-made, load-refused}
use xstats.Micstat.Freq.{pll_data_k1om}
use xstats.Micstat.Control.{null}
use xstats.Micstat.Control.Laws.{IsControlled}
use xstats.Micstat.Load.{nr_cpus_mic, init, exit, Statics, started, statics_after, micstat_init}
use xstats.Ring.Refine.{IsValid}
use xstats.Micstat.Freq.{IsClock, set_baseclk-IsClock}
use xstats.Micstat.Counters.{ncnt, nbuf}
use xstats.Micstat.Load.Events.{
  IsMade, IsRefused, init-IsMade, init-IsRefused, held, handed, counters-Keeps, leb-true,
}

-- The statics as the module is loaded: no event is held, no thread was made, the clock is that of the
-- table.
pub record IsFresh (s : Statics) : Type 0 where
  pub none_held : held s.counters ≡ []
  pub no_task : s.control.kthread_task ≡ null
  pub clock : s.pll ≡ pll_data_k1om
  pub storage : length s.ring.buffer ≡ ncnt * nbuf

-- What loading comes to: the events held, and where it succeeds, statics in order.
abbrev pub Ended : ℕ → (ℕ → ℕ → Option ℕ) → ℕ → Statics → Loaded → List ℕ → Statics → Type 0
Ended nr make registered s end released s' =
    ((end ≡ cnt_init_failed) × Any (IsRefused nr make) s.counters × (held s'.counters ≡ []))
    ⊎ ((end ≡ class_failed)
        × (registered ≢ 0)
        × All (IsMade nr make) s.counters
        × (released ≡ [])
        × (held s'.counters ≡ handed nr make s.counters))
    ⊎ ((end ≡ loaded)
        × (registered ≡ 0)
        × All (IsMade nr make) s.counters
        × ((exit_counters exit s'.counters).1 ≡ handed nr make s.counters)
        × (held (exit_counters exit s'.counters).0 ≡ [])
        × IsControlled s'.control
        × IsValid ncnt nbuf s'.ring
        × IsClock s'.pll)

-- On at most 244 cpus, loading a fresh module does not fault. It fails in its loop
-- only where the kernel refuses an event that a counter asks for, and then holds none; otherwise every
-- event asked for was made, and the module holds all of them. Where class_register fails it
-- has released none; where it succeeds, unloading the counters releases just these events, in order,
-- and keeps none, and the period, the thread, the ring and the clock are in order.
pub micstat_load_lem :
    (nr : ℕ) (make : ℕ → ℕ → Option ℕ) (registered : ℕ) (mapped : Bool) (scratch4 : ℕ) (s : Statics)
    → nr ≤ nr_cpus_mic
    → IsFresh s
    → (end : Loaded) × (released : List ℕ) × (s' : Statics) × (micstat_init nr make registered
          mapped scratch4 s
        ≡ ok (end, (released, s')))
      × Ended nr make registered s end released s'
unfolding micstat_init
micstat_load_lem nr make registered mapped scratch4 s few v =
    let done = load (init nr make) exit registered s.counters in
    let after = λ (end : Loaded).
      statics_after end mapped scratch4 (record (started s) { counters = done.1.0 }) in
    let made = λ (past : (done.0 ≡ class_failed) ⊎ (done.0 ≡ loaded)).
      All-weaken (init-IsMade nr make) s.counters
        (load-made (init nr make) exit registered s.counters past) in
    (
      done.0,
      done.1.1,
      after done.0,
      rw (leb-true nr nr_cpus_mic few) refl,
      elim (load_lem (counters-Keeps nr make) registered s.counters v.none_held) [
        | inl (e, none_left) ↦ inl (
          e,
          Any-weaken (init-IsRefused nr make) s.counters
              (load-refused (init nr make) exit registered s.counters e),
          rw e none_left,
        )
        | inr (inl (e, refused, kept, got)) ↦ inr (inl (e, refused, made (inl e), kept, rw e got))
        | inr (inr (e, zero_code, all, free)) ↦ inr (
            inr (
              e,
              zero_code,
              made (inr e),
              rw e all,
              rw e free,
              rw e record { period_range = (omega arith, omega arith); in_step = rw v.no_task tt },
              rw e record {
                storage = v.storage;
                base_in = omega arith;
                size_in = omega arith;
                next_at = omega arith;
              },
              rw e (rw v.clock (set_baseclk-IsClock mapped scratch4).0),
            ))
      ],
    )
