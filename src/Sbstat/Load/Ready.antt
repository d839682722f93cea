-- ===== src/Sbstat/Load/Ready.antt =====
-- What loading sbstat leaves where it succeeds: the statics that a machine starts from.
use xstats.Base.{
  ℕ, All, ◌*◌, ◌≡◌, ◌≢◌, refl, sym, ap, ◌∙◌, ◌⊎◌, inl, inr, false, List, [], Option, none, arith,
  length, map,
}
use xstats.Rollback
use xstats.Rollback.{Loaded, cnt_init_failed, class_failed, loaded}
use xstats.Rollback.Laws.{
  Any-weaken, All-weaken, load_lem, load-map, load-made, load-refused, exit_counters_lem,
}
use xstats.Sbstat.{Cell, ncnt, nbuf, counters}
use xstats.Sbstat.Buffer.{IsSampler, samples}
use xstats.Sbstat.Control.Laws.{IsControlled}
use xstats.Sbstat.Load.{perf_init, init, exit, Statics, micstat_init}
use xstats.Sbstat.Load.Events.{
  held, handed, counters-Keeps, init-IsRefused, IsRefused-none, IsMade, init-IsMade,
}

-- The statics of a module that is loaded and was not used yet; it holds the events handed to it.
pub record IsReady (given : List ℕ) (s : Statics) : Type 0 where
  pub sampled : IsSampler (record { trace = s.control.trace; counters = s.counters; ring = s.ring })
  pub controlled : IsControlled s.control
  pub off : s.control.on ≡ false
  pub empty : samples s.ring ≡ []
  pub holds : held s.counters ≡ given

-- Loading a module whose table is that of the source leaves the module ready, with every event that was
-- asked for made, but where the kernel refuses an event or the class.
pub micstat_init-IsReady :
    (make : ℕ → ℕ → Option ℕ) (registered : ℕ) (s : Statics)
    → s.counters ≡ counters
    → length s.ring.buffer ≡ ncnt * nbuf
    → let (end, (released, s')) = micstat_init make registered s in
      ((end ≡ cnt_init_failed)
        × (held s'.counters ≡ [])
        × (config : ℕ) × (cpu : ℕ) × (make config cpu ≡ none))
      ⊎ ((end ≡ class_failed) × (registered ≢ 0))
      ⊎ ((end ≡ loaded) × All (IsMade make) s.counters × IsReady (handed make s.counters) s')
unfolding micstat_init
micstat_init-IsReady make registered s same storage =
    let cells : ℕ → List Cell = λ config. (perf_init (make config)).1 in
    elim (load_lem (counters-Keeps make) registered s.counters (ap held same)) [
      | inl (e, none_left) ↦
          let failed = load-refused (init make) exit registered s.counters e in
          let (config, cpu, refused) =
            IsRefused-none make s.counters (Any-weaken (init-IsRefused make) s.counters failed) in
          inl (e, rw e none_left, config, cpu, refused)
      | inr (inl (e, refused, kept, got)) ↦ inr (inl (e, refused))
      | inr (inr (e, zero_code, all, free)) ↦
          let after = Rollback.load (init make) exit registered s.counters in
          inr (
            inr (
              e,
              All-weaken (init-IsMade make) s.counters
                  (load-made (init make) exit registered s.counters (inr e)),
              rw e record {
                sampled = record {
                  a = cells 0x003c;
                  b = cells 0x00c0;
                  c = cells 0x4f2e;
                  d = cells 0x412e;
                  e = cells 0x00c4;
                  f = cells 0x00c5;
                  g = cells 0x07f4;
                  shape =
                      load-map (init make) exit registered s.counters e
                      ∙ ap (map (λ c. (init make c).1)) same
                      ∙ (unfold init in refl);
                  in_order = record {
                    storage = storage;
                    base_in = omega arith;
                    size_in = omega arith;
                    next_at = omega arith;
                  };
                };
                controlled = record {
                  period_range = (omega arith, omega arith);
                  has_task = inl refl;
                };
                off = refl;
                empty = refl;
                holds = sym (exit_counters_lem (counters-Keeps make) after.1.0).0 ∙ all;
              },
            ))
    ]
