-- ===== src/Micstat/Control/Laws.antt =====
-- The threads of micstat: each one started is stopped once, or is the one that runs.
use xstats.Base.{
  append_shift, ℕ, ◌<◌, ◌≡◌, refl, sym, ap, ◌∙◌, inl, inr, Bool, true, false, ◌&&◌, List, [], ◌∷◌,
  ◌++◌, append-nil, Option, some, arith, ltb, leb, Option-cases, Bool-cases, length, length-append,
}
use xstats.Base.Text.{Text, codes, show_ℕ, length-show_ℕ-le}
use xstats.Page.{page_size}
use xstats.Kernel.{Result, ok}
use xstats.Xstat.Control.{starts_with}
use xstats.Sbstat.{Trace, ts_reset}
use xstats.Micstat.Control.{
  Task, null, running, gone, Module, timer_start, stop_task, set_on, set_off, micstat_store_ctrl,
  micstat_store_period, micstat_show_ctrl, micstat_show_period, Write, ctrl, set_period, store,
  stores,
}

-- A thread runs just while the module is on.
abbrev pub InStep : Bool → Task → Type 0
InStep true (running thread) = Unit {0}
InStep true _ = ⊥
InStep false (running thread) = ⊥
InStep false _ = Unit {0}

pub record IsControlled (m : Module) : Type 0 where
  pub period_range : (100 < m.period) × (m.period < 10000)
  pub in_step : InStep m.on m.kthread_task

abbrev pub threads : Task → List ℕ
threads (running thread) = thread ∷ []
threads null = []
threads (gone thread) = []

-- A write that ends well and keeps count of the threads.
abbrev pub Kept : Module → Result (Module × (List ℕ × List ℕ)) → Type 0
Kept m r =
    (m' : Module) × (started : List ℕ) × (stopped : List ℕ) × (r ≡ ok (m', (started, stopped)))
    × IsControlled m'
    × (threads m.kthread_task ++ started ≡ stopped ++ threads m'.kthread_task)

pub micstat_store_period-IsControlled :
    (parse : Text → Option ℕ) (buf : Text) (m : Module)
    → IsControlled m
    → IsControlled (micstat_store_period parse buf m)
      × ((micstat_store_period parse buf m).kthread_task ≡ m.kthread_task)
unfolding micstat_store_period
micstat_store_period-IsControlled parse buf m v = elim (Option-cases (parse buf)) [
  | inl e ↦ rw (e, micstat_store_period) (v, refl)
  | inr (tmp, e) ↦ elim (Bool-cases (ltb 100 tmp && ltb tmp 10000)) [
    | inl fits ↦
        rw (e, micstat_store_period, fits)
          (record { period_range = ground arith; in_step = v.in_step }, refl)
    | inr out ↦ rw (e, micstat_store_period, out) (v, refl)
  ]
]

module _ (period : ℕ) (trace : Trace) (range : (100 < period) × (period < 10000)) where
  abbrev with_task : Bool → Task → Module
  with_task on task = record { on = on; period = period; kthread_task = task; trace = trace }

  set_on-Kept :
      (thread now : ℕ) (buf : Text) (count : ℕ) (on : Bool) (task : Task)
      → InStep on task
      → (leb 2 count && starts_with buf (codes "on")) ≡ true
      → Kept
          (with_task on task)
          (micstat_store_ctrl (some thread) now buf count (with_task on task))
  unfolding micstat_store_ctrl set_on timer_start
  set_on-Kept thread now buf count true (running t) s e = (
    with_task true (running t),
    [],
    [],
    rw e refl,
    record { period_range = range; in_step = tt },
    refl,
  )
  set_on-Kept thread now buf count true null s e = absurd s
  set_on-Kept thread now buf count true (gone t) s e = absurd s
  set_on-Kept thread now buf count false (running t) s e = absurd s
  set_on-Kept thread now buf count false null s e = (
    record (with_task true (running thread)) { trace = ts_reset now trace },
    thread ∷ [],
    [],
    rw e refl,
    record { period_range = range; in_step = tt },
    refl,
  )
  set_on-Kept thread now buf count false (gone t) s e = (
    record (with_task true (running thread)) { trace = ts_reset now trace },
    thread ∷ [],
    [],
    rw e refl,
    record { period_range = range; in_step = tt },
    refl,
  )

  set_off-Kept :
      (thread now : ℕ) (buf : Text) (count : ℕ) (on : Bool) (task : Task)
      → InStep on task
      → (leb 2 count && starts_with buf (codes "on")) ≡ false
      → (leb 3 count && starts_with buf (codes "off")) ≡ true
      → Kept
          (with_task on task)
          (micstat_store_ctrl (some thread) now buf count (with_task on task))
  unfolding micstat_store_ctrl set_off stop_task
  set_off-Kept thread now buf count true (running t) s e o = (
    with_task false (gone t),
    [],
    t ∷ [],
    rw (e, o) refl,
    record { period_range = range; in_step = tt },
    refl,
  )
  set_off-Kept thread now buf count true null s e o = absurd s
  set_off-Kept thread now buf count true (gone t) s e o = absurd s
  set_off-Kept thread now buf count false (running t) s e o = absurd s
  set_off-Kept thread now buf count false null s e o = (
    with_task false null,
    [],
    [],
    rw (e, o) refl,
    record { period_range = range; in_step = tt },
    refl,
  )
  set_off-Kept thread now buf count false (gone t) s e o = (
    with_task false (gone t),
    [],
    [],
    rw (e, o) refl,
    record { period_range = range; in_step = tt },
    refl,
  )

pub store-Kept :
    (parse : Text → Option ℕ) (w : Write) (m : Module) → IsControlled m → Kept m (store parse w m)
unfolding micstat_store_ctrl
store-Kept parse (set_period buf) m v =
    let (v', same) = micstat_store_period-IsControlled parse buf m v in
    (
      micstat_store_period parse buf m,
      [],
      [],
      refl,
      v',
      append-nil (threads m.kthread_task) ∙ ap threads (sym same),
    )
store-Kept parse (ctrl thread now buf count) m v =
    elim (Bool-cases (leb 2 count && starts_with buf (codes "on"))) [
      | inl on ↦
          set_on-Kept m.period m.trace v.period_range thread now buf count m.on m.kthread_task
            v.in_step on
      | inr other ↦ elim (Bool-cases (leb 3 count && starts_with buf (codes "off"))) [
        | inl off ↦
            set_off-Kept m.period m.trace v.period_range thread now buf count m.on m.kthread_task
              v.in_step other off
        | inr neither ↦
            (m, [], [], rw (other, neither) refl, v, append-nil (threads m.kthread_task))
      ]
    ]

-- Where no thread is refused, no sequence of writes to `ctrl` and `period` faults, the period stays
-- above 100 and below 10000, and a thread runs just while the module is on, if this held before. Every
-- thread that ran before or was started is stopped once, in order, but for the one that runs.
pub micstat_stores-IsControlled :
    (parse : Text → Option ℕ) (ws : List Write) (m : Module)
    → IsControlled m
    → (m' : Module) × (started : List ℕ) × (stopped : List ℕ) × (stores parse ws m
        ≡ ok (m', (started, stopped)))
      × IsControlled m'
      × (threads m.kthread_task ++ started ≡ stopped ++ threads m'.kthread_task)
micstat_stores-IsControlled parse [] m v = (m, [], [], refl, v, append-nil (threads m.kthread_task))
micstat_stores-IsControlled parse (w ∷ ws) m v =
    let (mid, started, stopped, run, v', count) = store-Kept parse w m v in
    let (m', started', stopped', run', v'', count') = micstat_stores-IsControlled parse ws mid v' in
    (
      m',
      started ++ started',
      stopped ++ stopped',
      rw (run, run') refl,
      v'',
      append_shift (threads m.kthread_task) started started' stopped (threads mid.kthread_task)
          stopped' (threads m'.kthread_task) count count',
    )

pub length-show_ctrl : (m : Module) → length (micstat_show_ctrl m) < page_size
unfolding micstat_show_ctrl
length-show_ctrl m = elim (Bool-cases m.on) [
  | inl on ↦ rw on (omega arith)
  | inr off ↦ rw off (omega arith)
]

pub length-show_period : (m : Module) → length (micstat_show_period m) < page_size
unfolding micstat_show_period
length-show_period m =
    omega (arith, length-append (show_ℕ m.period) (codes "\n"), length-show_ℕ-le m.period)
