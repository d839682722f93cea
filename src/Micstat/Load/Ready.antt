-- ===== src/Micstat/Load/Ready.antt =====
-- What loading micstat leaves where it succeeds: the statics that a machine starts from.
use xstats.Base.{
  ℕ, ◌≤◌, ◌≡◌, refl, sym, ap, ◌∙◌, ◌⊎◌, inl, inr, Bool, false, List, [], ◌∷◌, Option, none, ◌≢◌,
  arith, length, map,
}
use xstats.Kernel.{ok}
use xstats.Rollback.{Loaded, cnt_init_failed, class_failed, loaded, load}
use xstats.Rollback.Laws.{Any-weaken, load_lem, load-map, load-refused, exit_counters_lem}
use xstats.Ring.Refine.{IsValid}
use xstats.Sbstat.{Cell}
use xstats.Micstat.Counters.{ncnt, nbuf, configs, zeroed, counters, table, perfs}
use xstats.Micstat.Buffer.{samples}
use xstats.Micstat.Control.{null}
use xstats.Micstat.Control.Laws.{IsControlled}
use xstats.Micstat.Load.{
  nr_cpus_mic, perf_init, init, exit, Statics, started, statics_after, micstat_init,
}
use xstats.Micstat.Load.Events.{
  held, handed, counters-Keeps, leb-true, init-IsRefused, IsRefused-none,
}
use xstats.Micstat.Load.Fresh.{IsFresh}

-- The statics of a module that is loaded and was not used yet; it holds the events handed to it.
pub record IsReady (given : List ℕ) (s : Statics) : Type 0 where
  pub events : List (ℕ × List Cell)
  pub shape : s.counters ≡ table events
  pub width : length events ≡ 15
  pub controlled : IsControlled s.control
  pub off : s.control.on ≡ false
  pub no_task : s.control.kthread_task ≡ null
  pub in_order : IsValid ncnt nbuf s.ring
  pub empty : samples s.ring ≡ []
  pub holds : held s.counters ≡ given

module _ (nr : ℕ) (make : ℕ → ℕ → Option ℕ) where
  abbrev made : ℕ × List Cell → ℕ × List Cell
  made event = (event.0, (perf_init nr (make event.0)).1)

  perfs-map :
      (events : List (ℕ × List Cell))
      → map (λ c. (init nr make c).1) (perfs events) ≡ perfs (map made events)
  unfolding init
  perfs-map [] = refl
  perfs-map ((config, cells) ∷ events) = rw (perfs-map events) refl

  table-map :
      (events : List (ℕ × List Cell))
      → map (λ c. (init nr make c).1) (table events) ≡ table (map made events)
  unfolding init
  table-map events = rw (perfs-map events) refl

  -- On at most 244 cpus, loading a fresh module whose table is that of the source leaves the module
  -- ready, but where the kernel refuses an event or the class.
  pub micstat_init-IsReady :
      (registered : ℕ) (mapped : Bool) (scratch4 : ℕ) (s : Statics)
      → nr ≤ nr_cpus_mic
      → IsFresh s
      → s.counters ≡ counters nr
      → (end : Loaded) × (released : List ℕ) × (s' : Statics) × (micstat_init nr make registered
            mapped scratch4 s
          ≡ ok (end, (released, s')))
        × (((end ≡ cnt_init_failed)
              × (held s'.counters ≡ [])
              × (config : ℕ) × (cpu : ℕ) × (make config cpu ≡ none))
            ⊎ ((end ≡ class_failed) × (registered ≢ 0))
            ⊎ ((end ≡ loaded) × IsReady (handed nr make s.counters) s'))
  unfolding micstat_init
  micstat_init-IsReady registered mapped scratch4 s few v same =
      let done = load (init nr make) exit registered s.counters in
      let after = λ (end : Loaded).
        statics_after end mapped scratch4 (record (started s) { counters = done.1.0 }) in
      let events : List (ℕ × List Cell) = map (λ config. (config, zeroed nr)) configs in
      (
        done.0,
        done.1.1,
        after done.0,
        rw (leb-true nr nr_cpus_mic few) refl,
        elim (load_lem (counters-Keeps nr make) registered s.counters v.none_held) [
          | inl (e, none_left) ↦
              let failed = load-refused (init nr make) exit registered s.counters e in
              let (config, cpu, refused) =
                IsRefused-none nr make s.counters
                  (Any-weaken (init-IsRefused nr make) s.counters failed) in
              inl (e, rw e none_left, config, cpu, refused)
          | inr (inl (e, refused, kept, got)) ↦ inr (inl (e, refused))
          | inr (inr (e, zero_code, all, free)) ↦
              let shape =
                load-map (init nr make) exit registered s.counters e
                ∙ ap (map (λ c. (init nr make c).1)) same
                ∙ table-map events in
              inr (
                inr (
                  e,
                  rw e record {
                    events = map made events;
                    shape = shape;
                    width = refl;
                    controlled = record {
                      period_range = (omega arith, omega arith);
                      in_step = rw v.no_task tt;
                    };
                    off = refl;
                    no_task = v.no_task;
                    in_order = record {
                      storage = v.storage;
                      base_in = omega arith;
                      size_in = omega arith;
                      next_at = omega arith;
                    };
                    empty = refl;
                    holds = sym (exit_counters_lem (counters-Keeps nr make) done.1.0).0 ∙ all;
                  },
                ))
        ],
      )
