-- ===== src/Xstat/Life/Moves.antt =====
-- Each action in the life of a node.
use mathlib.Core.List.{map-append}
use mathlib.Core.List.Sublist
use mathlib.Core.Path.{subst, fun_ext}
use xstats.Base.{
  ℕ, Bool, true, ◌≡◌, refl, sym, ap, ap₂, ◌∙◌, inl, List, [], ◌∷◌, ◌++◌, map, append-nil, Option,
  none, some,
}
use xstats.Kernel.{ok}
use xstats.Page.History.{append-Sublist}
use xstats.Xstat.World.{Hardware, PerfEventConfig, Effect, release}
use xstats.Xstat.Clock.{get_time}
use xstats.Xstat.Perf.{perf_exit}
use xstats.Xstat.Perf.Held.{handed, perf_exit-create_events, perf_exit-perf_restart}
use xstats.Xstat.Table.{event_config, Event, cyc, inst, llcref, llcmiss, br, brmiss, l2lin}
use xstats.Xstat.Node.{Node, nbuf}
use xstats.Xstat.Node.Slots.{Slots, slots_of, next_slots, row_of, next_groups}
use xstats.Xstat.Node.Words.{HasRegisters, row_of-AreWords}
use xstats.Xstat.Node.Roll.{field, samples, roll_buffer_lem}
use xstats.Xstat.Node.Lifecycle.{
  init_counters_lem, fresh_context, fresh_slots, exit_counters_lem, released, stopped, idle_slots,
}
use xstats.Xstat.Control.Threads.{start_node-task, stop_node-task}
use xstats.Xstat.History.Same.{Same-next_groups, next_groups-AreSensors}
use xstats.Xstat.Life.{
  Phase, idle, woken, sampling, State, nothing, given, all_handed, start_thread, begin_thread,
  roll_thread, stop_thread,
}
use xstats.Xstat.Life.Laws.{held_slots, held, IsResting, InPhase, IsAlive, Goes, Keeps-still}

stays : (s : State) → IsAlive s → Goes s (ok (nothing, s))
stays s v = (nothing, s, refl, Keeps-still s s v (λ g. refl) refl refl)

-- The task does not matter to a node that rests.
with_task-IsResting :
    (node : Node) (task : Option ℕ) → IsResting node → IsResting (record node { task = task })
with_task-IsResting node task v = record {
  resting = record {
    idle = v.resting.idle;
    slots_are = v.resting.slots_are;
    working = v.resting.working;
    in_order = v.resting.in_order;
  };
  none_held = v.none_held;
  readable = v.readable;
}

-- What the fresh contexts hold is what the kernel handed out.
abbrev contexts : (PerfEventConfig → ℕ → Option ℕ) → List Event → List ℕ → List Effect
contexts create [] mask = []
contexts create (e ∷ events) mask =
    perf_exit (fresh_context create mask e) ++ contexts create events mask

contexts-all_handed :
    (create : PerfEventConfig → ℕ → Option ℕ) (events : List Event) (mask : List ℕ)
    → map release (all_handed create events mask) ≡ contexts create events mask
contexts-all_handed create [] mask = refl
contexts-all_handed create (e ∷ events) mask =
    map-append release (handed create (event_config e) mask) (all_handed create events mask)
    ∙ ap₂ ◌++◌ (sym (perf_exit-create_events create (event_config e) mask))
        (contexts-all_handed create events mask)

pub start_thread-Goes :
    (thread : ℕ) (phase : Phase) (s : State)
    → s.phase ≡ phase
    → IsAlive s
    → Goes s (start_thread thread phase s)
unfolding start_thread
start_thread-Goes thread idle s e v =
    let (no_task, rests) = subst (λ p. InPhase p s.node) e v.in_phase in
    let s' : State = record s { node = record s.node { task = some thread }; phase = woken } in
    (
      nothing,
      s',
      ap (λ n. ok (nothing, record s { node = n; phase = woken })) (start_node-task thread s.node),
      Keeps-still s s'
          (record {
            in_phase = ((thread, refl), with_task-IsResting s.node (some thread) rests);
            are_sensors = v.are_sensors;
          })
          (λ g. refl) refl refl,
    )
start_thread-Goes thread woken s e v = stays s v
start_thread-Goes thread sampling s e v = stays s v

pub begin_thread-Goes :
    (memory : ℕ → Bool) (create : PerfEventConfig → ℕ → Option ℕ) (phase : Phase) (s : State)
    → ((i : ℕ) → memory i ≡ true)
    → s.phase ≡ phase
    → IsAlive s
    → Goes s (begin_thread memory create phase s)
unfolding begin_thread
begin_thread-Goes memory create idle s given_all e v = stays s v
begin_thread-Goes memory create sampling s given_all e v = stays s v
begin_thread-Goes memory create woken s given_all e v =
    let (thread, rests) = subst (λ p. InPhase p s.node) e v.in_phase in
    let slots = fresh_slots create s.node.mask rests.resting.idle in
    (
      record nothing { made = given create s.node.mask },
      record s { node = record s.node { ctxs = slots_of slots }; phase = sampling },
      rw (fun_ext given_all, init_counters_lem create s.node rests.resting) refl,
      record {
        brought = [];
        delivered = [];
        alive = record {
          in_phase = (
            thread,
            slots,
            record {
              slots_are = refl;
              working = rests.resting.working;
              in_order = rests.resting.in_order;
            },
          );
          are_sensors = v.are_sensors;
        };
        same = λ g. refl;
        timed = refl;
        words = tt;
        printed = refl;
        kept = rw (append-nil (samples s.node)) (Sublist.refl (samples s.node));
        counted =
            ap (λ l. l ++ map release (given create s.node.mask)) rests.none_held
            ∙ contexts-all_handed create (cyc ∷ inst ∷ llcref ∷ llcmiss ∷ br ∷ brmiss ∷ l2lin ∷ [])
                s.node.mask;
      },
    )

module _ (scale : ℕ → ℕ → ℕ → ℕ) where
  -- A round leaves the slots their events.
  held_slots-next :
      (hw : Hardware) (last : ℕ) (slots : Slots)
      → held_slots (slots_of (next_slots scale hw last slots)) ≡ held_slots (slots_of slots)
  held_slots-next hw last s =
      let k = perf_exit-perf_restart scale hw in
      rw
        (
          k s.cycles,
          k s.instructions,
          k s.llc_refs,
          k s.llc_misses,
          k s.branches,
          k s.branch_misses,
          k s.l2_lines,
        )
        refl

  pub roll_thread-Goes :
      (hw : Hardware) (phase : Phase) (s : State)
      → HasRegisters hw
      → s.phase ≡ phase
      → IsAlive s
      → Goes s (roll_thread scale hw phase s)
  unfolding roll_thread
  roll_thread-Goes hw idle s h e v = stays s v
  roll_thread-Goes hw woken s h e v = stays s v
  roll_thread-Goes hw sampling s h e v =
      let (thread, slots, live) = subst (λ p. InPhase p s.node) e v.in_phase in
      let last = field 0 s.node.working_buf in
      let (node, run, next, kept, log, task) =
        roll_buffer_lem scale hw s.node slots s.groups live in
      (
        record nothing { times = get_time hw ∷ [] },
        record s { node = node; groups = next_groups scale hw s.groups },
        rw run refl,
        record {
          brought = row_of scale hw last slots s.groups ∷ [];
          delivered = [];
          alive = record {
            in_phase =
                subst (λ p. InPhase p node) (sym e)
                  ((thread.0, task ∙ thread.1), next_slots scale hw last slots, next);
            are_sensors = next_groups-AreSensors scale hw s.groups v.are_sensors;
          };
          same = Same-next_groups scale hw s.groups;
          timed = refl;
          words = (row_of-AreWords scale hw last slots s.groups h v.are_sensors, tt);
          printed = refl;
          kept =
              rw log (append-Sublist nbuf (samples s.node) (row_of scale hw last slots s.groups));
          counted =
              append-nil (held s)
              ∙ ap held_slots live.slots_are
              ∙ sym (held_slots-next hw last slots)
              ∙ ap held_slots (sym next.slots_are);
        },
      )

pub stop_thread-Goes :
    (phase : Phase) (s : State) → s.phase ≡ phase → IsAlive s → Goes s (stop_thread phase s)
unfolding stop_thread
stop_thread-Goes idle s e v = stays s v
stop_thread-Goes woken s e v =
    let ((thread, task), rests) = subst (λ p. InPhase p s.node) e v.in_phase in
    let s' : State = record s { node = record s.node { task = none }; phase = idle } in
    (
      nothing,
      s',
      rw (stop_node-task s.node thread task) refl,
      Keeps-still s s'
          (record {
            in_phase = (refl, with_task-IsResting s.node none rests);
            are_sensors = v.are_sensors;
          })
          (λ g. refl) refl refl,
    )
stop_thread-Goes sampling s e v =
    let ((thread, task), slots, live) = subst (λ p. InPhase p s.node) e v.in_phase in
    let rested : Node = record s.node { ctxs = idle_slots (stopped slots) } in
    (
      record nothing { released = released slots },
      record s { node = record rested { task = none }; phase = idle },
      rw (exit_counters_lem s.node slots live.slots_are, stop_node-task rested thread task) refl,
      record {
        brought = [];
        delivered = [];
        alive = record {
          in_phase = (
            refl,
            record {
              resting = record {
                idle = stopped slots;
                slots_are = refl;
                working = live.working;
                in_order = live.in_order;
              };
              none_held = refl;
              readable = inl (refl, (refl, (refl, tt)));
            },
          );
          are_sensors = v.are_sensors;
        };
        same = λ g. refl;
        timed = refl;
        words = tt;
        printed = refl;
        kept = rw (append-nil (samples s.node)) (Sublist.refl (samples s.node));
        counted =
            append-nil (held s) ∙ ap held_slots live.slots_are ∙ sym (append-nil (released slots));
      },
    )
