-- ===== src/Sbstat/Load.antt =====
-- micstat_init and micstat_exit of sbstat: what becomes of the events.
pub mod Events
pub mod Fresh
pub mod Ready
use xstats.Base.{
  ℕ, zero, suc, ◌+◌, ◌≡◌, ◌≢◌, refl, ap, ap₂, ◌∙◌, ◌⊎◌, inl, inr, Bool, true, false, List, [], ◌∷◌,
  ◌++◌, Option, none, some, arith, length, Option-cases, Bool-cases, if◌then◌else◌, replicate, ◌==◌,
}
use xstats.Rollback
use xstats.Rollback.{Loaded, cnt_init_failed, class_failed, loaded}
use xstats.Ring.{Ring}
use xstats.Sbstat.Control.{Module}
use xstats.Sbstat.{nr_cpus_mic, Cell, Counter, ts, intv, temp, oh, perf, zeroed, zero_value}

-- The second loop of perf_init, from cpu `i` on: it stops at the first event that is refused.
pub create_events : (ℕ → Option ℕ) → ℕ → List Cell → Bool × List Cell
create_events make i [] = (true, [])
create_events make i (c ∷ cs) = elim (make i) [
  | none ↦ (false, c ∷ cs)
  | some e ↦
      let (made, rest) = create_events make (i + 1) cs in (made, record c { event = some e } ∷ rest)
]

-- `true` for the result 0; the first loop clears the cells.
pub perf_init : (ℕ → Option ℕ) → Bool × List Cell
perf_init make = create_events make 0 zeroed

-- The cells without events, and the events released, in order.
pub perf_exit : List Cell → List Cell × List ℕ
perf_exit [] = ([], [])
perf_exit (c ∷ cs) =
    let (rest, released) = perf_exit cs in
    elim c.event [
      | none ↦ (c ∷ rest, released)
      | some e ↦ (record c { event = none } ∷ rest, e ∷ released)
    ]

pub init : (ℕ → ℕ → Option ℕ) → Counter → Bool × Counter
init make (perf config cells) =
    let (made, cells') = perf_init (make config) in (made, perf config cells')
init make ts = (true, ts)
init make intv = (true, intv)
init make temp = (true, temp)
init make oh = (true, oh)

pub exit : Counter → Counter × List ℕ
exit (perf config cells) =
    let (cells', released) = perf_exit cells in (perf config cells', released)
exit ts = (ts, [])
exit intv = (intv, [])
exit temp = (temp, [])
exit oh = (oh, [])

-- micstat_exit's last loop.
abbrev pub exit_counters : List Counter → List Counter × List ℕ
exit_counters = Rollback.exit_counters exit

-- The statics that loading sets.
pub record Statics : Type 0 where
  pub counters : List Counter
  pub control : Module
  pub ring : Ring

-- The start of micstat_init, and what it does between the loop and class_register.
abbrev pub started : Statics → Statics
started s = record s { control = record s.control { on = false; period = 1000 } }

abbrev pub emptied : Statics → Statics
emptied s = record s { ring = record s.ring { buffer_base = 0; buffer_next = 0; buffer_size = 0 } }

-- The ring is set where the counters are ready.
abbrev pub statics_after : Loaded → Statics → Statics
statics_after cnt_init_failed s = s
statics_after class_failed s = emptied s
statics_after loaded s = emptied s

-- How loading ends, the events released on the way, and the statics.
pub micstat_init : (ℕ → ℕ → Option ℕ) → (registered : ℕ) → Statics → Loaded × (List ℕ × Statics)
micstat_init make registered s =
    let (end, (cs, released)) = Rollback.load (init make) exit registered s.counters in
    (end, (released, statics_after end (record (started s) { counters = cs })))
