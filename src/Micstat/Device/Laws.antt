-- ===== src/Micstat/Device/Laws.antt =====
-- What each function of micstat's table and each round of its thread keeps.
use mathlib.Core.List.{nil-sublist}
use mathlib.Core.List.Sublist
use xstats.Base.{
  ℕ, ◌<◌, ◌≡◌, refl, sym, ap, ◌∙◌, inl, inr, false, ◌&&◌, List, [], ◌∷◌, ◌++◌, Option, zero, suc,
  arith, get_elem?, length, append-nil, take, Bool-cases, ◌==◌,
}
use xstats.Base.Text.{Text}
use xstats.Kernel.{ok}
use xstats.Kernel.Printf.{Scnprintf}
use xstats.Page.{page_size}
use xstats.Page.Drain.{drain_lem}
use xstats.Page.Last.{length-Newest}
use xstats.Page.History.{append-Sublist, take-drop}
use xstats.Device
use xstats.Device.{Request, Outcome, replied, threaded}
use xstats.Device.Laws.{View, Keeps, Keeps-nothing, ShowGoes, StoreGoes, Serves, time_of}
use xstats.Micstat.Smc.{Bus}
use xstats.Micstat.Counters.{ncnt, nbuf, Readings, restart_counters, restart_counters_lem}
use xstats.Micstat.Counters.Held.{held-restart_counters}
use xstats.Micstat.Buffer.{
  samples, IsSampler, micstat_roll_buffer-IsSampler, micstat_store_clear, micstat_store_clear_lem,
}
use xstats.Micstat.Show.{line, print_buffer, micstat_print_buffer-Prints, micstat_show_last_lem}
use xstats.Micstat.Control.{
  Module, micstat_store_period, micstat_show_ctrl, micstat_show_period, ctrl,
}
use xstats.Micstat.Control.Laws.{
  IsControlled, threads, store-Kept, micstat_store_period-IsControlled, length-show_ctrl,
  length-show_period,
}
use xstats.Micstat.Load.Events.{held}
use xstats.Micstat.Device.{
  Machine, sampler, with_sampler, runs, roll, store_ctrl, store_period, store_clear, show_stat,
  show_last, micstat_attr, stat,
}

-- The statics are in order.
pub record IsMachine (m : Machine) : Type 0 where
  pub sampled : IsSampler (sampler m)
  pub controlled : IsControlled m.statics.control

abbrev pub view : View Machine
view = record {
  InOrder = IsMachine;
  rows = λ m. samples m.statics.ring;
  threads = λ m. threads m.statics.control.kthread_task;
  held = λ m. held m.statics.counters;
  stat = stat;
  line = line;
  allows = λ req. Unit {0};
}

module _ (scale : ℕ → ℕ → ℕ → ℕ) (smc : Bus) where
  pub roll-Keeps :
      (now : Readings) (m : Machine)
      → IsMachine m
      → (times : List ℕ) × (m' : Machine) × (roll scale smc now m ≡ ok (times, m'))
        × Keeps view m (record { times = times; replies = []; started = []; stopped = [] }) m'
  unfolding roll
  roll-Keeps now m v =
      elim (Bool-cases (runs m.statics.control.kthread_task && m.statics.control.on)) [
        | inr idle ↦ ([], m, rw idle refl, Keeps-nothing view m v)
        | inl busy ↦
            let s = sampler m in
            let (s', e, v', kept, next, after) =
              micstat_roll_buffer-IsSampler scale smc m.statics.pll now s v.sampled in
            let values =
              ap (restart_counters scale smc m.statics.pll now s.device) v.sampled.shape
              ∙ restart_counters_lem scale smc m.statics.pll now s.device v.sampled.events in
            (
              now.started ∷ [],
              with_sampler s' m,
              rw (busy, e) refl,
              record {
                brought = (restart_counters scale smc m.statics.pll now s.device s.counters).0 ∷ [];
                delivered = [];
                in_order = record {
                  sampled = v';
                  controlled = record {
                    period_range = v.controlled.period_range;
                    in_step = v.controlled.in_step;
                  };
                };
                timed = ap (λ r. time_of r.0 ∷ []) values;
                printed = refl;
                kept = rw kept (append-Sublist nbuf (samples s.ring) _);
                fits = tt;
                counted = append-nil (threads m.statics.control.kthread_task);
                holds =
                    ap held after
                    ∙ held-restart_counters scale smc m.statics.pll now s.device s.counters;
              },
            )
      ]

module _ (printf : Scnprintf) (parse : Text → Option ℕ) where
  -- A read that prints something short and changes nothing.
  show_only :
      (place : ℕ) (text : Text) (m : Machine)
      → (place == stat) ≡ false
      → length text < page_size
      → IsMachine m
      → Keeps view m (replied place text) m
  show_only place text m other short v = record {
    brought = [];
    delivered = [];
    in_order = v;
    timed = refl;
    printed = rw other refl;
    kept = rw (append-nil (samples m.statics.ring)) (Sublist.refl (samples m.statics.ring));
    fits = (short, tt);
    counted = append-nil (threads m.statics.control.kthread_task);
    holds = refl;
  }

  show_stat-Goes : ShowGoes view 3 (get_elem? (micstat_attr printf parse) 3)
  unfolding show_stat
  show_stat-Goes m v =
      let ring = m.statics.ring in
      let (text, ring', e, d) =
        drain_lem ncnt nbuf (print_buffer printf) line (micstat_print_buffer-Prints printf)
          ring.buffer_size page_size ring v.sampled.in_order refl (omega arith) in
      (
        replied 3 text,
        record m { statics = record m.statics { ring = ring' } },
        rw e refl,
        record {
          brought = [];
          delivered = take d.k (samples ring);
          in_order = record {
            sampled = record {
              events = v.sampled.events;
              shape = v.sampled.shape;
              width = v.sampled.width;
              in_order = d.valid;
            };
            controlled = v.controlled;
          };
          timed = refl;
          printed = append-nil text ∙ d.printed;
          kept =
              rw (d.kept, take-drop d.k (samples ring), append-nil (samples ring))
                (Sublist.refl (samples ring));
          fits = (d.fits, tt);
          counted = append-nil (threads m.statics.control.kthread_task);
          holds = refl;
        },
      )

  show_last-Goes : ShowGoes view 4 (get_elem? (micstat_attr printf parse) 4)
  unfolding show_last
  show_last-Goes m v =
      let (text, e, last) = micstat_show_last_lem printf m.statics.ring v.sampled.in_order in
      (
        replied 4 text,
        m,
        rw e refl,
        show_only 4 text m refl
            (length-Newest (print_buffer printf) line (micstat_print_buffer-Prints printf)
              (samples m.statics.ring) text last)
            v,
      )

  -- A write that changes what `ctrl` and `period` stand for.
  control_only :
      (m : Machine) (control : Module) (started stopped : List ℕ)
      → IsMachine m
      → IsControlled control
      → threads m.statics.control.kthread_task ++ started ≡ stopped ++ threads control.kthread_task
      → Keeps view m
          (threaded (started, stopped))
          (record m { statics = record m.statics { control = control } })
  control_only m control started stopped v v' count = record {
    brought = [];
    delivered = [];
    in_order = record {
      sampled = record {
        events = v.sampled.events;
        shape = v.sampled.shape;
        width = v.sampled.width;
        in_order = v.sampled.in_order;
      };
      controlled = v';
    };
    timed = refl;
    printed = refl;
    kept = rw (append-nil (samples m.statics.ring)) (Sublist.refl (samples m.statics.ring));
    fits = tt;
    counted = count;
    holds = refl;
  }

  store_ctrl-Goes : StoreGoes view (get_elem? (micstat_attr printf parse) 0)
  unfolding store_ctrl
  store_ctrl-Goes req m u v =
      let (control, started, stopped, e, v', count) =
        store-Kept parse (ctrl req.thread req.now req.buf req.count) m.statics.control
          v.controlled in
      (
        threaded (started, stopped),
        record m { statics = record m.statics { control = control } },
        rw e refl,
        control_only m control started stopped v v' count,
      )

  store_period-Goes : StoreGoes view (get_elem? (micstat_attr printf parse) 1)
  unfolding store_period
  store_period-Goes req m u v =
      let (v', same) =
        micstat_store_period-IsControlled parse req.buf m.statics.control v.controlled in
      let control = micstat_store_period parse req.buf m.statics.control in
      (
        threaded ([], []),
        record m { statics = record m.statics { control = control } },
        refl,
        control_only m control [] [] v v'
            (append-nil (threads m.statics.control.kthread_task) ∙ ap threads (sym same)),
      )

  store_clear-Goes : StoreGoes view (get_elem? (micstat_attr printf parse) 2)
  unfolding store_clear
  store_clear-Goes req m u v =
      let ring = m.statics.ring in
      let (valid, which) = micstat_store_clear_lem req.buf req.count ring v.sampled.in_order in
      let ring' = (micstat_store_clear req.buf req.count ring).1 in
      (
        threaded ([], []),
        record m { statics = record m.statics { ring = ring' } },
        refl,
        record {
          brought = [];
          delivered = [];
          in_order = record {
            sampled = record {
              events = v.sampled.events;
              shape = v.sampled.shape;
              width = v.sampled.width;
              in_order = valid;
            };
            controlled = v.controlled;
          };
          timed = refl;
          printed = refl;
          kept = elim which [
            | inl (asked, returned, none_held) ↦ rw none_held (nil-sublist _)
            | inr (other, returned, same) ↦
                rw (same, append-nil (samples ring)) (Sublist.refl (samples ring))
          ];
          fits = tt;
          counted = append-nil (threads m.statics.control.kthread_task);
          holds = refl;
        },
      )

  show_ctrl-Goes : ShowGoes view 0 (get_elem? (micstat_attr printf parse) 0)
  show_ctrl-Goes m v =
      let text = micstat_show_ctrl m.statics.control in
      (replied 0 text, m, refl, show_only 0 text m refl (length-show_ctrl m.statics.control) v)

  show_period-Goes : ShowGoes view 1 (get_elem? (micstat_attr printf parse) 1)
  show_period-Goes m v =
      let text = micstat_show_period m.statics.control in
      (replied 1 text, m, refl, show_only 1 text m refl (length-show_period m.statics.control) v)

  shows : (place : ℕ) → ShowGoes view place (get_elem? (micstat_attr printf parse) place)
  shows zero = show_ctrl-Goes
  shows (suc zero) = show_period-Goes
  shows (suc (suc zero)) = λ m v. (replied 2 [], m, refl, show_only 2 [] m refl (omega arith) v)
  shows (suc (suc (suc zero))) = show_stat-Goes
  shows (suc (suc (suc (suc zero)))) = show_last-Goes
  shows (suc (suc (suc (suc (suc place))))) = tt

  stores : (place : ℕ) → StoreGoes view (get_elem? (micstat_attr printf parse) place)
  stores zero = store_ctrl-Goes
  stores (suc zero) = store_period-Goes
  stores (suc (suc zero)) = store_clear-Goes
  stores (suc (suc (suc zero))) = λ req m u v. (Device.nothing, m, refl, Keeps-nothing view m v)
  stores (suc (suc (suc (suc zero)))) =
      λ req m u v. (Device.nothing, m, refl, Keeps-nothing view m v)
  stores (suc (suc (suc (suc (suc place))))) = tt

  pub micstat-Serves :
      (scale : ℕ → ℕ → ℕ → ℕ) (smc : Bus) → Serves view (roll scale smc) (micstat_attr printf parse)
  micstat-Serves scale smc = record {
    rounds = roll-Keeps scale smc;
    shows = shows;
    stores = stores;
  }
