-- ===== src/Sbstat/Load/Fresh.antt =====
-- Loading sbstat: what becomes of the events and the statics on every way out of micstat_init.
use xstats.Base.{ℕ, All, ◌*◌, ◌≡◌, ◌≢◌, refl, ◌⊎◌, inl, inr, List, [], Option, arith, length}
use xstats.Rollback.{load, Loaded, cnt_init_failed, class_failed, loaded}
use xstats.Rollback.Laws.{Any, All-weaken, Any-weaken, load_lem, load-made, load-refused}
use xstats.Ring.Refine.{IsValid}
use xstats.Sbstat.{ncnt, nbuf}
use xstats.Sbstat.Load.{init, exit, exit_counters, Statics, micstat_init}
use xstats.Sbstat.Load.Events.{
  held, handed, counters-Keeps, IsMade, IsRefused, init-IsMade, init-IsRefused,
}
use xstats.Sbstat.Control.Laws.{IsControlled}

-- What loading comes to: the events held, and where it succeeds, statics in order.
abbrev pub Ended : (ℕ → ℕ → Option ℕ) → ℕ → Statics → Loaded → List ℕ → Statics → Type 0
Ended make registered s end released s' =
    ((end ≡ cnt_init_failed) × Any (IsRefused make) s.counters × (held s'.counters ≡ []))
    ⊎ ((end ≡ class_failed)
        × (registered ≢ 0)
        × All (IsMade make) s.counters
        × (released ≡ [])
        × (held s'.counters ≡ handed make s.counters))
    ⊎ ((end ≡ loaded)
        × (registered ≡ 0)
        × All (IsMade make) s.counters
        × ((exit_counters s'.counters).1 ≡ handed make s.counters)
        × (held (exit_counters s'.counters).0 ≡ [])
        × IsControlled s'.control
        × IsValid ncnt nbuf s'.ring)

-- Loaded with no event held and with the storage of its ring, the module fails in its loop only where
-- the kernel refuses an event that a counter asks for, and then holds none; otherwise every event asked
-- for was made, and the module holds all of them. Where class_register fails it has
-- released none; where it succeeds, unloading the counters releases just these events, in order, and
-- keeps none, the period is in its range, the module is off, and the ring is in order.
pub micstat_init_lem :
    (make : ℕ → ℕ → Option ℕ) (registered : ℕ) (s : Statics)
    → held s.counters ≡ []
    → length s.ring.buffer ≡ ncnt * nbuf
    → let (end, (released, s')) = micstat_init make registered s in
      Ended make registered s end released s'
unfolding micstat_init
micstat_init_lem make registered s none_held storage =
    let end : Loaded = (load (init make) exit registered s.counters).0 in
    let made = λ (past : (end ≡ class_failed) ⊎ (end ≡ loaded)).
      All-weaken (init-IsMade make) s.counters
        (load-made (init make) exit registered s.counters past) in
    elim (load_lem (counters-Keeps make) registered s.counters none_held) [
      | inl (e, none_left) ↦ inl (
        e,
        Any-weaken (init-IsRefused make) s.counters
            (load-refused (init make) exit registered s.counters e),
        rw e none_left,
      )
      | inr (inl (e, refused, kept, got)) ↦ inr (inl (e, refused, made (inl e), kept, rw e got))
      | inr (inr (e, zero_code, all, free)) ↦ inr (
          inr (
            e,
            zero_code,
            made (inr e),
            rw e all,
            rw e free,
            rw e record { period_range = (omega arith, omega arith); has_task = inl refl },
            rw e record {
              storage = storage;
              base_in = omega arith;
              size_in = omega arith;
              next_at = omega arith;
            },
          ))
    ]
