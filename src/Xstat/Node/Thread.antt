-- ===== src/Xstat/Node/Thread.antt =====
-- kthread_function: the counters are initialised, sampled for any number of rounds and released.
use xstats.Base.{
  ℕ, suc, ◌≡◌, refl, sym, ap, ◌∙◌, ◌⊎◌, inl, inr, Bool, true, false, ◌||◌, List, [], ◌∷◌, ◌++◌,
  length, Bool-cases, if◌then◌else◌, Option,
}
use xstats.Kernel.{ok}
use xstats.Ring.Refine.{append}
use xstats.Xstat.World.{PerfEventConfig, IpmiSensors, Effect}
use xstats.Xstat.Node.{
  Node, nbuf, Round, Progress, exit_counters, sleep_time, roll_buffer, finish, sample_rounds,
  kthread_function,
}
use xstats.Xstat.Node.Slots.{Slots, slots_of, row_of, next_groups, effects_of}
use xstats.Xstat.Clock.{get_time}
use xstats.Xstat.Node.Lifecycle.{
  IsIdle, idle_slots, stopped, released, exit_slots_lem, init_counters_lem, plenty, fresh_slots,
}
use xstats.Xstat.Node.Roll.{IsSampling, samples, field, roll_buffer_lem}

-- Rows added to a log one after the other.
abbrev pub appends {ℓ} : {A : Type ℓ} → ℕ → List A → List A → List A
appends n q [] = q
appends n q (x ∷ xs) = appends nbuf (append n q x) xs

-- Whether the thread is told to stop, and the rounds that it makes until then.
abbrev pub told : List Round → Bool
told [] = false
told (r ∷ rounds) = r.stop_first || (r.stop_second || told rounds)

abbrev pub rounds_made : List Round → ℕ
rounds_made [] = 0
rounds_made (r ∷ rounds) =
    let more = suc (rounds_made rounds) in
    if r.stop_first then 1 else if r.stop_second then 1 else more

-- What the thread has done after the rounds given: one row for each round made; then its node is idle
-- if it was told to stop, and samples on if not.
pub record Outcome (rounds : List Round) (t t' : Progress) : Type 0 where
  pub rows : List (List ℕ)
  pub counted : length rows ≡ rounds_made rounds
  pub log : samples t'.node ≡ appends nbuf (samples t.node) rows
  pub state :
      ((told rounds ≡ true) × IsIdle t'.node)
      ⊎ ((told rounds ≡ false) × ((s : Slots) × IsSampling t'.node s))

finish_lem :
    (t : Progress) (s : Slots)
    → IsSampling t.node s
    → (t' : Progress) × (finish t ≡ ok t') × IsIdle t'.node × (samples t'.node ≡ samples t.node)
unfolding finish exit_counters
finish_lem t s v = (
  record t {
    node = record t.node { ctxs = idle_slots (stopped s) };
    effects = t.effects ++ released s;
  },
  rw (v.slots_are, exit_slots_lem s) refl,
  record { idle = stopped s; slots_are = refl; working = v.working; in_order = v.in_order },
  refl,
)

-- A round that the thread stops in.
Outcome-stop :
    (r : Round) (rounds : List Round) (t t' : Progress) (row : List ℕ)
    → samples t'.node ≡ append nbuf (samples t.node) row
    → IsIdle t'.node
    → rounds_made (r ∷ rounds) ≡ 1
    → told (r ∷ rounds) ≡ true
    → Outcome (r ∷ rounds) t t'
Outcome-stop r rounds t t' row log idle made stop = record {
  rows = row ∷ [];
  counted = sym made;
  log = log;
  state = inl (stop, idle);
}

-- A round that others follow.
Outcome-more :
    (r : Round) (rounds : List Round) (t mid t' : Progress) (row : List ℕ)
    → samples mid.node ≡ append nbuf (samples t.node) row
    → r.stop_first ≡ false
    → r.stop_second ≡ false
    → Outcome rounds mid t'
    → Outcome (r ∷ rounds) t t'
Outcome-more r rounds t mid t' row log first second o = record {
  rows = row ∷ o.rows;
  counted = rw (first, second) (ap suc o.counted);
  log = o.log ∙ ap (λ q. appends nbuf q o.rows) log;
  state = rw (first, second) o.state;
}

module _ (scale : ℕ → ℕ → ℕ → ℕ) where
  -- The state after a roll, before and after the sleep.
  module _ (r : Round) (t : Progress) (node : Node) (g : IpmiSensors) (effects : List Effect)
      (started : ℕ) where
    abbrev rolled : Progress
    rolled = record { node = node; groups = g; effects = t.effects ++ effects; slept = t.slept }

    abbrev rested : Progress
    rested = record rolled { slept = t.slept ++ (sleep_time r.period r.after_roll started ∷ []) }

    sample_rounds-cons :
        (rounds : List Round) (s : Slots)
        → roll_buffer scale r.hw t.node (r.meanwhile t.groups) ≡ ok (node, (g, effects))
        → node.ctxs ≡ slots_of s
        → s.time ≡ started
        → sample_rounds scale (r ∷ rounds) t ≡ (
            if r.stop_first
            then finish rolled
            else if r.stop_second
            then finish rested
            else sample_rounds scale rounds rested)
    unfolding sample_rounds
    sample_rounds-cons rounds s run slots time = rw (run, slots, ← time) refl

  sample_rounds_lem :
      (rounds : List Round) (t : Progress) (s : Slots)
      → IsSampling t.node s
      → (t' : Progress) × (sample_rounds scale rounds t ≡ ok t') × Outcome rounds t t'
  sample_rounds_lem [] t s v = (
    t,
    unfold sample_rounds in refl,
    record { rows = []; counted = refl; log = refl; state = inr (refl, (s, v)) },
  )
  sample_rounds_lem (r ∷ rounds) t s v =
      let (node, run, next, _, log, _) =
        roll_buffer_lem scale r.hw t.node s (r.meanwhile t.groups) v in
      let g = next_groups scale r.hw (r.meanwhile t.groups) in
      let effects = effects_of scale r.hw (r.meanwhile t.groups) in
      let here : Progress = rolled r t node g effects (get_time r.hw) in
      let slept : Progress = rested r t node g effects (get_time r.hw) in
      let row = row_of scale r.hw (field 0 t.node.working_buf) s (r.meanwhile t.groups) in
      let step =
        sample_rounds-cons r t node g effects (get_time r.hw) rounds _ run next.slots_are refl in
      let (end, stops, idle, same) = finish_lem here _ next in
      let (end', stops', idle', same') = finish_lem slept _ next in
      let (last, runs, outcome) = sample_rounds_lem rounds slept _ next in
      elim (Bool-cases r.stop_first) [
        | inl first ↦ (
          end,
          step ∙ rw first stops,
          Outcome-stop r rounds t end row (same ∙ log) idle (rw first refl) (rw first refl),
        )
        | inr go_on ↦ elim (Bool-cases r.stop_second) [
          | inl second ↦ (
            end',
            step ∙ rw (go_on, second) stops',
            Outcome-stop r rounds t end' row (same' ∙ log) idle' (rw (go_on, second) refl)
                (rw (go_on, second) refl),
          )
          | inr still ↦ (
            last,
            step ∙ rw (go_on, still) runs,
            Outcome-more r rounds t slept last row log go_on still outcome,
          )
        ]
      ]

-- Started on an idle node, with memory for its counters, the thread never faults, whatever others do
-- to the sensors; where nobody reads or resets the node's ring meanwhile, it adds one row to
-- the log for each round it makes; told to stop, it leaves the node idle, so that it can be started
-- again, and otherwise it goes on sampling.
pub kthread_function_lem :
    (scale : ℕ → ℕ → ℕ → ℕ) (create : PerfEventConfig → ℕ → Option ℕ) (rounds : List Round)
    (node : Node) (groups : IpmiSensors)
    → IsIdle node
    → (t : Progress) × (kthread_function scale (plenty create) rounds node groups ≡ ok t)
      × Outcome rounds (record { node = node; groups = groups; effects = []; slept = [] }) t
unfolding kthread_function
kthread_function_lem scale create rounds node groups v =
    let started : Node = record node { ctxs = slots_of (fresh_slots create node.mask v.idle) } in
    let sampling : IsSampling started (fresh_slots create node.mask v.idle) = record {
      slots_are = refl;
      working = v.working;
      in_order = v.in_order;
    } in
    let first : Progress = record { node = started; groups = groups; effects = []; slept = [] } in
    let (t, runs, outcome) = sample_rounds_lem scale rounds first _ sampling in
    (
      t,
      rw (init_counters_lem create node v) runs,
      record {
        rows = outcome.rows;
        counted = outcome.counted;
        log = outcome.log;
        state = outcome.state;
      },
    )
