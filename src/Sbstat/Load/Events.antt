-- ===== src/Sbstat/Load/Events.antt =====
-- The events that the counters of sbstat hold, from loading to unloading.
use xstats.Base.{
  ℕ, zero, suc, ◌+◌, ◌≡◌, refl, sym, ◌∙◌, ◌⊎◌, true, false, ap, ap₂, ◌++◌, inl, inr, List, [], ◌∷◌,
  Option, none, some, length, Option-cases, replicate, u64, arith,
}
use xstats.Xstat.World.{PerfValue}
use xstats.Sbstat.{
  Trace, Readings, ts_restart, oh_restart, restart_counters, contribution, perf_restart,
  nr_cpus_mic, Cell, Counter, ts, intv, temp, oh, perf, zeroed, zero_value,
}
use xstats.Rollback.Laws.{Any, Keeps, of_all}
use xstats.Sbstat.Load.{create_events, perf_init, perf_exit, init, exit}

-- The events that counters hold, in order.
abbrev pub held_cells : List Cell → List ℕ
held_cells [] = []
held_cells (c ∷ cs) = elim c.event [ none ↦ held_cells cs | some e ↦ e ∷ held_cells cs ]

abbrev pub held_one : Counter → List ℕ
held_one (perf config cells) = held_cells cells
held_one ts = []
held_one _ = []

abbrev pub held : List Counter → List ℕ
held = of_all held_one

-- A round of a counter leaves it its events.
pub held_cells-perf_restart :
    (scale : ℕ → ℕ → ℕ → ℕ) (read_value : ℕ → PerfValue) (total : ℕ) (cells : List Cell)
    → held_cells (perf_restart scale read_value total cells).1 ≡ held_cells cells
unfolding perf_restart
held_cells-perf_restart scale read_value total [] = refl
held_cells-perf_restart scale read_value total (c ∷ cs) =
    let read : ℕ × Cell = elim c.event [
      | none ↦ (total, c)
      | some e ↦ (
        u64 (total + contribution scale (read_value e) c.value),
        record c { value = read_value e },
      )
    ] in
    ground (arith, held_cells-perf_restart scale read_value read.0 cs)

pub held-restart_counters :
    (scale : ℕ → ℕ → ℕ → ℕ) (now : Readings) (t : Trace) (cs : List Counter)
    → held (restart_counters scale now t cs).1.1 ≡ held cs
unfolding restart_counters
held-restart_counters scale now t [] = refl
held-restart_counters scale now t (ts ∷ cs) =
    held-restart_counters scale now (ts_restart now t).1 cs
held-restart_counters scale now t (intv ∷ cs) = held-restart_counters scale now t cs
held-restart_counters scale now t (temp ∷ cs) = held-restart_counters scale now t cs
held-restart_counters scale now t (oh ∷ cs) =
    held-restart_counters scale now (oh_restart now t).1 cs
held-restart_counters scale now t (perf config cells ∷ cs) =
    ap₂ ◌++◌ (held_cells-perf_restart scale now.perf_value 0 cells)
      (held-restart_counters scale now t cs)

-- The events that the kernel hands out for `n` cpus from `i` on, up to the first refusal.
abbrev pub obtained : (ℕ → Option ℕ) → ℕ → ℕ → List ℕ
obtained make i zero = []
obtained make i (suc n) = elim (make i) [ none ↦ [] | some e ↦ e ∷ obtained make (i + 1) n ]

abbrev pub handed_one : (ℕ → ℕ → Option ℕ) → Counter → List ℕ
handed_one make (perf config cells) = obtained (make config) 0 nr_cpus_mic
handed_one make ts = []
handed_one make _ = []

abbrev pub handed : (ℕ → ℕ → Option ℕ) → List Counter → List ℕ
handed make = of_all (handed_one make)

abbrev AllFree : List Cell → Type 0
AllFree [] = Unit {0}
AllFree (c ∷ cs) = (c.event ≡ none) × AllFree cs

held_cells-AllFree : (cells : List Cell) → AllFree cells → held_cells cells ≡ []
held_cells-AllFree [] h = refl
held_cells-AllFree (c ∷ cs) (e, h) = rw e (held_cells-AllFree cs h)

pub AllFree-replicate :
    (n : ℕ) → AllFree (replicate n (record { event = none; value = zero_value }))
AllFree-replicate zero = tt
AllFree-replicate (suc n) = (refl, AllFree-replicate n)

pub create_events-obtained :
    (make : ℕ → Option ℕ) (i : ℕ) (cells : List Cell)
    → AllFree cells
    → held_cells (create_events make i cells).1 ≡ obtained make i (length cells)
unfolding create_events
create_events-obtained make i [] h = refl
create_events-obtained make i (c ∷ cs) (e, h) = elim (Option-cases (make i)) [
  | inl none_made ↦ rw (none_made, create_events) (rw e (held_cells-AllFree cs h))
  | inr (event, made) ↦
      rw (made, create_events) (ap (λ es. event ∷ es) (create_events-obtained make (i + 1) cs h))
]

init-held_one :
    (make : ℕ → ℕ → Option ℕ) (c : Counter) → held_one (init make c).1 ≡ handed_one make c
unfolding init perf_init
init-held_one make (perf config cells) =
    create_events-obtained (make config) 0 zeroed (AllFree-replicate nr_cpus_mic)
init-held_one make ts = refl
init-held_one make intv = refl
init-held_one make temp = refl
init-held_one make oh = refl

pub perf_exit_lem :
    (cells : List Cell)
    → ((perf_exit cells).1 ≡ held_cells cells) × (held_cells (perf_exit cells).0 ≡ [])
unfolding perf_exit
perf_exit_lem [] = (refl, refl)
perf_exit_lem (c ∷ cs) = elim (Option-cases c.event) [
  | inl e ↦ rw e (perf_exit_lem cs)
  | inr (event, e) ↦ rw e (ap (λ es. event ∷ es) (perf_exit_lem cs).0, (perf_exit_lem cs).1)
]

exit_lem : (c : Counter) → ((exit c).1 ≡ held_one c) × (held_one (exit c).0 ≡ [])
unfolding exit
exit_lem (perf config cells) = perf_exit_lem cells
exit_lem ts = (refl, refl)
exit_lem intv = (refl, refl)
exit_lem temp = (refl, refl)
exit_lem oh = (refl, refl)

pub counters-Keeps : (make : ℕ → ℕ → Option ℕ) → Keeps (init make) exit held_one (handed_one make)
counters-Keeps make = record {
  takes = init-held_one make;
  releases = λ c. (exit_lem c).0;
  frees = λ c. (exit_lem c).1;
}

-- The kernel makes the events of `n` cpus from `i` on; it refuses one of them.
abbrev pub Obtains : (ℕ → Option ℕ) → ℕ → ℕ → Type 0
Obtains make i zero = Unit {0}
Obtains make i (suc n) = ((e : ℕ) × (make i ≡ some e)) × Obtains make (i + 1) n

abbrev pub Refuses : (ℕ → Option ℕ) → ℕ → ℕ → Type 0
Refuses make i zero = ⊥
Refuses make i (suc n) = (make i ≡ none) ⊎ Refuses make (i + 1) n

-- The kernel makes every event that a counter asks for; it refuses one of them.
abbrev pub IsMade : (ℕ → ℕ → Option ℕ) → Counter → Type 0
IsMade make (perf config cells) = Obtains (make config) 0 nr_cpus_mic
IsMade make ts = Unit {0}
IsMade make _ = Unit {0}

abbrev pub IsRefused : (ℕ → ℕ → Option ℕ) → Counter → Type 0
IsRefused make (perf config cells) = Refuses (make config) 0 nr_cpus_mic
IsRefused make ts = ⊥
IsRefused make _ = ⊥

pub create_events-Obtains :
    (make : ℕ → Option ℕ) (i : ℕ) (cells : List Cell)
    → (create_events make i cells).0 ≡ true
    → Obtains make i (length cells)
unfolding create_events
create_events-Obtains make i [] h = tt
create_events-Obtains make i (c ∷ cs) h = elim (Option-cases (make i)) [
  | inl refused ↦ absurd (cc)
  | inr (event, got) ↦
      ((event, got), create_events-Obtains make (i + 1) cs (sym (rw (got, create_events) refl) ∙ h))
]

-- The second loop of perf_init fails only where the kernel refuses an event.
pub create_events-Refuses :
    (make : ℕ → Option ℕ) (i : ℕ) (cells : List Cell)
    → (create_events make i cells).0 ≡ false
    → Refuses make i (length cells)
unfolding create_events
create_events-Refuses make i [] h = absurd (cc)
create_events-Refuses make i (c ∷ cs) h = elim (Option-cases (make i)) [
  | inl refused ↦ inl refused
  | inr (event, got) ↦
      inr (create_events-Refuses make (i + 1) cs (sym (rw (got, create_events) refl) ∙ h))
]

pub init-IsMade : (make : ℕ → ℕ → Option ℕ) (c : Counter) → (init make c).0 ≡ true → IsMade make c
unfolding init perf_init
init-IsMade make (perf config cells) h = create_events-Obtains (make config) 0 zeroed h
init-IsMade make ts h = tt
init-IsMade make intv h = tt
init-IsMade make temp h = tt
init-IsMade make oh h = tt

pub init-IsRefused :
    (make : ℕ → ℕ → Option ℕ) (c : Counter) → (init make c).0 ≡ false → IsRefused make c
unfolding init perf_init
init-IsRefused make (perf config cells) h = create_events-Refuses (make config) 0 zeroed h
init-IsRefused make ts h = absurd (cc)
init-IsRefused make intv h = absurd (cc)
init-IsRefused make temp h = absurd (cc)
init-IsRefused make oh h = absurd (cc)

pub Refuses-none :
    (make : ℕ → Option ℕ) (i n : ℕ) → Refuses make i n → (cpu : ℕ) × (make cpu ≡ none)
Refuses-none make i zero h = absurd h
Refuses-none make i (suc n) (inl e) = (i, e)
Refuses-none make i (suc n) (inr h) = Refuses-none make (i + 1) n h

-- Some event is refused, of some counter.
pub IsRefused-none :
    (make : ℕ → ℕ → Option ℕ) (cs : List Counter)
    → Any (IsRefused make) cs
    → (config : ℕ) × (cpu : ℕ) × (make config cpu ≡ none)
IsRefused-none make [] h = absurd h
IsRefused-none make (perf config cells ∷ cs) (inl h) =
    let (cpu, refused) = Refuses-none (make config) 0 nr_cpus_mic h in (config, cpu, refused)
IsRefused-none make (ts ∷ cs) (inl h) = absurd h
IsRefused-none make (intv ∷ cs) (inl h) = absurd h
IsRefused-none make (temp ∷ cs) (inl h) = absurd h
IsRefused-none make (oh ∷ cs) (inl h) = absurd h
IsRefused-none make (c ∷ cs) (inr h) = IsRefused-none make cs h
