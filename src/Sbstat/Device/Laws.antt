-- ===== src/Sbstat/Device/Laws.antt =====
-- What each function of the tables of sbstat and haswellstat and each round of their threads keeps.
use mathlib.Core.List.{Sublist}
use mathlib.Core.List.Sublist
use xstats.Base.{
  ℕ, ◌<◌, ◌≡◌, refl, sym, ap, ◌∙◌, inl, inr, true, false, none, some, ◌&&◌, List, [], ◌∷◌, ◌++◌,
  Option, arith, length, append-nil, take, ◌==◌, Bool-cases,
}
use xstats.Base.Text.{Text}
use xstats.Kernel.{Result, ok}
use xstats.Kernel.Printf.{Scnprintf}
use xstats.Ring.{Ring}
use xstats.Ring.Refine.{IsValid}
use xstats.Page.{page_size}
use xstats.Page.Line.{print_buffer}
use xstats.Page.Drain.{drain_lem}
use xstats.Page.History.{take-drop}
use xstats.Device.{Request, replied, threaded, call_show, call_store}
use xstats.Device.Laws.{View, Keeps, Keeps-nothing, Goes, time_of}
use xstats.Sbstat.{Readings, ncnt, nbuf, counters}
use xstats.Sbstat.Buffer.{Sampler, IsSampler, samples}
use xstats.Sbstat.Show.{line, print_item, print_buffer-Prints}
use xstats.Sbstat.Control.{
  Module, micstat_store_period, micstat_show_ctrl, micstat_show_period, ctrl,
}
use xstats.Sbstat.Control.Laws.{
  IsControlled, threads, store-Kept, micstat_store_period-IsControlled, length-show_ctrl,
  length-show_period,
}
use xstats.Sbstat.Load.{Statics}
use xstats.Sbstat.Load.Events.{held}
use xstats.Sbstat.Device.{
  sampler, with_sampler, runs, roll, store_ctrl, store_period, show_stat, show_ctrl, show_period,
}

-- The statics are in order.
pub record IsMachine (s : Statics) : Type 0 where
  pub sampled : IsSampler (sampler s)
  pub controlled : IsControlled s.control

abbrev pub view : ℕ → View Statics
view stat = record {
  InOrder = IsMachine;
  rows = λ s. samples s.ring;
  threads = λ s. threads s.control;
  held = λ s. held s.counters;
  stat = stat;
  line = line;
  allows = λ req. req.returned ≡ false;
}

-- What a module's roll_buffer keeps: it brings a row with the time of its round, which goes to the end
-- or is lost, as rows at the front may be; the events stay.
pub record Rolls (roll_buffer : Readings → Sampler → Result Sampler) : Type 0 where
  pub rolls :
      (now : Readings) (s : Sampler)
      → IsSampler s
      → (s' : Sampler) × (row : List ℕ) × (roll_buffer now s ≡ ok s')
        × IsSampler s'
        × (time_of row ≡ now.started)
        × Sublist (samples s'.ring) (samples s.ring ++ (row ∷ []))
        × (held s'.counters ≡ held s.counters)

-- The trace does not matter to the order of a sampler, nor the rows.
with_trace :
    (s : Statics) (control : Module)
    → IsSampler (sampler s)
    → IsSampler (sampler (record s { control = control }))
with_trace s control v = record {
  a = v.a;
  b = v.b;
  c = v.c;
  d = v.d;
  e = v.e;
  f = v.f;
  g = v.g;
  shape = v.shape;
  in_order = v.in_order;
}

pub with_ring :
    (s : Statics) (ring : Ring)
    → IsValid ncnt nbuf ring
    → IsSampler (sampler s)
    → IsSampler (sampler (record s { ring = ring }))
with_ring s ring valid v = record {
  a = v.a;
  b = v.b;
  c = v.c;
  d = v.d;
  e = v.e;
  f = v.f;
  g = v.g;
  shape = v.shape;
  in_order = valid;
}

module _ (stat : ℕ) where
  pub roll-Keeps :
      (roll_buffer : Readings → Sampler → Result Sampler)
      → Rolls roll_buffer
      → (now : Readings) (s : Statics) → IsMachine s
      → (times : List ℕ) × (s' : Statics) × (roll roll_buffer now s ≡ ok (times, s'))
        × Keeps
            (view stat)
            s
            (record { times = times; replies = []; started = []; stopped = [] })
            s'
  unfolding roll
  roll-Keeps roll_buffer k now s v =
      elim (Bool-cases (runs s.control.kthread_task && s.control.on)) [
        | inr idle ↦ ([], s, rw idle refl, Keeps-nothing (view stat) s v)
        | inl busy ↦
            let (s', row, e, v', at, kept, same) = k.rolls now (sampler s) v.sampled in
            (
              now.started ∷ [],
              with_sampler s' s,
              rw (busy, e) refl,
              record {
                brought = row ∷ [];
                delivered = [];
                in_order = record {
                  sampled = v';
                  controlled = record {
                    period_range = v.controlled.period_range;
                    has_task = v.controlled.has_task;
                  };
                };
                timed = ap (λ t. t ∷ []) at;
                printed = refl;
                kept = kept;
                fits = tt;
                counted = append-nil (threads s.control);
                holds = same;
              },
            )
      ]

  -- A read that prints something short and changes nothing.
  pub show_only :
      (place : ℕ) (text : Text) (s : Statics)
      → (place == stat) ≡ false
      → length text < page_size
      → IsMachine s
      → Keeps (view stat) s (replied place text) s
  show_only place text s other short v = record {
    brought = [];
    delivered = [];
    in_order = v;
    timed = refl;
    printed = rw other refl;
    kept = rw (append-nil (samples s.ring)) (Sublist.refl (samples s.ring));
    fits = (short, tt);
    counted = append-nil (threads s.control);
    holds = refl;
  }

  pub show_ctrl-Goes :
      (0 == stat) ≡ false
      → (s : Statics) → IsMachine s
      → Goes (view stat) s (call_show 0 (some show_ctrl) s)
  show_ctrl-Goes other s v =
      let text = micstat_show_ctrl s.control in
      (replied 0 text, s, refl, show_only 0 text s other (length-show_ctrl s.control) v)

  pub show_period-Goes :
      (1 == stat) ≡ false
      → (s : Statics) → IsMachine s
      → Goes (view stat) s (call_show 1 (some show_period) s)
  show_period-Goes other s v =
      let text = micstat_show_period s.control in
      (replied 1 text, s, refl, show_only 1 text s other (length-show_period s.control) v)

  -- A write that changes what `ctrl` and `period` stand for.
  control_only :
      (s : Statics) (control : Module) (started stopped : List ℕ)
      → IsMachine s
      → IsControlled control
      → threads s.control ++ started ≡ stopped ++ threads control
      → Keeps (view stat) s (threaded (started, stopped)) (record s { control = control })
  control_only s control started stopped v v' count = record {
    brought = [];
    delivered = [];
    in_order = record { sampled = with_trace s control v.sampled; controlled = v' };
    timed = refl;
    printed = refl;
    kept = rw (append-nil (samples s.ring)) (Sublist.refl (samples s.ring));
    fits = tt;
    counted = count;
    holds = refl;
  }

  pub store_ctrl-Goes :
      (req : Request) (s : Statics)
      → req.returned ≡ false
      → IsMachine s
      → Goes (view stat) s (call_store (some store_ctrl) req s)
  unfolding store_ctrl
  store_ctrl-Goes req s stays v =
      let (control, started, stopped, e, v', count) =
        store-Kept (λ buf. none) (ctrl req.thread req.now req.buf req.count) s.control
          v.controlled in
      (
        threaded (started, stopped),
        record s { control = control },
        rw (stays, e) refl,
        control_only s control started stopped v v' count,
      )

  pub store_period-Goes :
      (parse : Text → Option ℕ) (req : Request) (s : Statics)
      → req.returned ≡ false
      → IsMachine s
      → Goes (view stat) s (call_store (some (store_period parse)) req s)
  unfolding store_period
  store_period-Goes parse req s stays v =
      let (v', same) = micstat_store_period-IsControlled parse req.buf s.control v.controlled in
      let control = micstat_store_period parse req.buf s.control in
      (
        threaded ([], []),
        record s { control = control },
        refl,
        control_only s control [] [] v v' (append-nil (threads s.control) ∙ sym same),
      )

  -- `stat` stands at its place.
  pub show_stat-Goes :
      (printf : Scnprintf) (s : Statics)
      → (stat == stat) ≡ true
      → IsMachine s
      → Goes (view stat) s (call_show stat (some (show_stat printf)) s)
  unfolding show_stat
  show_stat-Goes printf s here v =
      let ring = s.ring in
      let (text, ring', e, d) =
        drain_lem ncnt nbuf (print_buffer printf (print_item printf) counters) line
          (print_buffer-Prints printf) ring.buffer_size page_size ring v.sampled.in_order refl
          (omega arith) in
      (
        replied stat text,
        record s { ring = ring' },
        rw e refl,
        record {
          brought = [];
          delivered = take d.k (samples ring);
          in_order = record {
            sampled = with_ring s ring' d.valid v.sampled;
            controlled = v.controlled;
          };
          timed = refl;
          printed = rw here (append-nil text ∙ d.printed);
          kept =
              rw (d.kept, take-drop d.k (samples ring), append-nil (samples ring))
                (Sublist.refl (samples ring));
          fits = (d.fits, tt);
          counted = append-nil (threads s.control);
          holds = refl;
        },
      )
