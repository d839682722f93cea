-- ===== src/Sbstat/Control/Laws.antt =====
-- The threads of sbstat: each one started is stopped once, or is the one that runs.
use xstats.Base.{
  ℕ, Bool, ◌<◌, ◌≡◌, refl, sym, ap, ◌∙◌, ◌⊎◌, inl, inr, true, false, ◌&&◌, List, [], ◌∷◌, ◌++◌,
  append-nil, append_shift, Option, none, some, arith, ltb, leb, length, length-append,
  Option-cases, Bool-cases, if◌then◌else◌,
}
use xstats.Sbstat.{ts_reset}
use xstats.Base.Text.{Text, codes, show_ℕ, length-show_ℕ-le}
use xstats.Kernel.{Result, ok, fault}
use xstats.Page.{page_size}
use xstats.Xstat.Control.{starts_with}
use xstats.Sbstat.Control.{
  Module, timer_start, set_on, timer_cleanup, set_off, micstat_store_ctrl, micstat_store_period,
  micstat_show_ctrl, micstat_show_period, Write, ctrl, set_period, store, stores,
}

-- The period is in its range, and while the module is on it has a thread.
pub record IsControlled (m : Module) : Type 0 where
  pub period_range : (100 < m.period) × (m.period < 10000)
  pub has_task : (m.on ≡ false) ⊎ ((thread : ℕ) × (m.kthread_task ≡ some thread))

-- The thread that runs: that of the task, while the module is on.
abbrev pub threads : Module → List ℕ
threads m = if m.on then timer_start m.kthread_task else []

-- A write that ends well and keeps count of the threads.
abbrev pub Kept : Module → Result (Module × (List ℕ × List ℕ)) → Type 0
Kept m r =
    (m' : Module) × (started : List ℕ) × (stopped : List ℕ) × (r ≡ ok (m', (started, stopped)))
    × IsControlled m'
    × (threads m ++ started ≡ stopped ++ threads m')

pub micstat_store_period-IsControlled :
    (parse : Text → Option ℕ) (buf : Text) (m : Module)
    → IsControlled m
    → IsControlled (micstat_store_period parse buf m)
      × (threads (micstat_store_period parse buf m) ≡ threads m)
unfolding micstat_store_period
micstat_store_period-IsControlled parse buf m v = elim (Option-cases (parse buf)) [
  | inl e ↦ rw (e, micstat_store_period) (v, refl)
  | inr (tmp, e) ↦ elim (Bool-cases (ltb 100 tmp && ltb tmp 10000)) [
    | inl fits ↦
        rw (e, micstat_store_period, fits)
          (record { period_range = ground arith; has_task = v.has_task }, refl)
    | inr out ↦ rw (e, micstat_store_period, out) (v, refl)
  ]
]

-- Going on starts a thread where none runs.
set_on-IsControlled :
    (thread now : ℕ) (m : Module)
    → IsControlled m
    → let (m', started) = set_on (some thread) now m in
      IsControlled m' × (threads m ++ started ≡ threads m')
unfolding set_on
set_on-IsControlled thread now m v = elim (Bool-cases m.on) [
  | inr off ↦ rw off (record { period_range = v.period_range; has_task = inr (thread, refl) }, refl)
  | inl on ↦ elim v.has_task [
    | inl off ↦ absurd (cc)
    | inr task ↦ rw on (
      record { period_range = v.period_range; has_task = inr task },
      append-nil (timer_start m.kthread_task),
    )
  ]
]

-- Going off stops the thread that runs, where it does not return by itself.
pub set_off-stops :
    (m : Module)
    → IsControlled m
    → (m' : Module) × (stopped : List ℕ) × (set_off false m ≡ ok (m', stopped))
      × IsControlled m'
      × (((m.on ≡ false) × (stopped ≡ []))
          ⊎ ((thread : ℕ) × (m.on ≡ true)
              × (m.kthread_task ≡ some thread)
              × (stopped ≡ thread ∷ [])))
      × (m'.on ≡ false)
      × (threads m ≡ stopped)
unfolding set_off timer_cleanup
set_off-stops m v = elim (Bool-cases m.on) [
  | inr off ↦ (
    record m { on = false },
    [],
    rw off refl,
    record { period_range = v.period_range; has_task = inl refl },
    inl (off, refl),
    refl,
    rw off refl,
  )
  | inl on ↦ elim v.has_task [
    | inl off ↦ absurd (cc)
    | inr (thread, e) ↦ (
      record m { on = false },
      thread ∷ [],
      rw (on, e) refl,
      record { period_range = v.period_range; has_task = inl refl },
      inr (thread, on, e, refl),
      refl,
      ap (λ b. if b then timer_start m.kthread_task else []) on ∙ ap timer_start e,
    )
  ]
]

pub store-Kept :
    (parse : Text → Option ℕ) (w : Write) (m : Module) → IsControlled m → Kept m (store parse w m)
unfolding micstat_store_ctrl
store-Kept parse (set_period buf) m v =
    let (v', same) = micstat_store_period-IsControlled parse buf m v in
    (micstat_store_period parse buf m, [], [], refl, v', append-nil (threads m) ∙ sym same)
store-Kept parse (ctrl thread now buf count) m v =
    elim (Bool-cases (leb 2 count && starts_with buf (codes "on"))) [
      | inl on ↦
          let (v', counted) = set_on-IsControlled thread now m v in
          let after = set_on (some thread) now m in (after.0, after.1, [], rw on refl, v', counted)
      | inr other ↦ elim (Bool-cases (leb 3 count && starts_with buf (codes "off"))) [
        | inl off ↦
            let (m', stopped, run, v', which, off', gone) = set_off-stops m v in
            (
              m',
              [],
              stopped,
              rw (other, off, run) refl,
              v',
              append-nil (threads m)
                  ∙ gone
                  ∙ sym (append-nil stopped)
                  ∙ ap (λ b. stopped ++ (if b then timer_start m'.kthread_task else [])) (sym off'),
            )
        | inr none_of_them ↦ (m, [], [], rw (other, none_of_them) refl, v, append-nil (threads m))
      ]
    ]

-- Where no thread is refused and none returns by itself, no sequence of writes to `ctrl` and `period` faults, the period stays
-- above 100 and below 10000, and the module has a thread while it is on, if this held before. Every
-- thread that ran before or was started is stopped once, in order, but for the one that runs.
pub sbstat_stores-IsControlled :
    (parse : Text → Option ℕ) (ws : List Write) (m : Module)
    → IsControlled m
    → (m' : Module) × (started : List ℕ) × (stopped : List ℕ) × (stores parse ws m
        ≡ ok (m', (started, stopped)))
      × IsControlled m'
      × (threads m ++ started ≡ stopped ++ threads m')
sbstat_stores-IsControlled parse [] m v = (m, [], [], refl, v, append-nil (threads m))
sbstat_stores-IsControlled parse (w ∷ ws) m v =
    let (mid, started, stopped, run, v', count) = store-Kept parse w m v in
    let (m', started', stopped', run', v'', count') = sbstat_stores-IsControlled parse ws mid v' in
    (
      m',
      started ++ started',
      stopped ++ stopped',
      rw (run, run') refl,
      v'',
      append_shift (threads m) started started' stopped (threads mid) stopped' (threads m') count
          count',
    )

-- From a module that is off, going on and then off stops the thread that was made, and leaves the
-- module off, where one was made and does not return by itself; it faults where the thread was refused,
-- and where the thread finds `on` cleared and returns before kthread_stop is called.
pub set_off-set_on :
    (created : Option ℕ) (now : ℕ) (returned : Bool) (m : Module)
    → m.on ≡ false
    → ((thread : ℕ) × (m' : Module) × (created ≡ some thread)
        × (returned ≡ false)
        × (set_off returned (set_on created now m).0 ≡ ok (m', (set_on created now m).1))
        × ((set_on created now m).1 ≡ thread ∷ [])
        × (m'.on ≡ false))
      ⊎ (((created ≡ none) ⊎ (returned ≡ true))
          × (set_off returned (set_on created now m).0 ≡ fault))
unfolding set_on set_off timer_cleanup
set_off-set_on none now returned m off = inr (inl refl, rw off refl)
set_off-set_on (some thread) now true m off = inr (inr refl, rw off refl)
set_off-set_on (some thread) now false m off = inl (
  thread,
  record m { on = false; trace = ts_reset now m.trace; kthread_task = some thread },
  refl,
  refl,
  rw off refl,
  rw off refl,
  refl,
)

pub length-show_ctrl : (m : Module) → length (micstat_show_ctrl m) < page_size
unfolding micstat_show_ctrl
length-show_ctrl m = elim (Bool-cases m.on) [
  | inl on ↦ rw on (omega arith)
  | inr off ↦ rw off (omega arith)
]

pub length-show_period : (m : Module) → length (micstat_show_period m) < page_size
unfolding micstat_show_period
length-show_period m =
    omega (arith, length-append (show_ℕ m.period) (codes "\n"), length-show_ℕ-le m.period)
