-- ===== src/Micstat/Thread.antt =====
-- kthread_function of micstat.
use xstats.Base.{ℕ, ◌≡◌, refl, ap, ◌∙◌, List, get_or}
use xstats.Kernel.{Result, ok, ◌>>=◌}
use xstats.Thread
use xstats.Thread.{Round, executed, Follow, appends, Rolls, kthread_function_rolls}
use xstats.Ring.Refine.{append}
use xstats.Micstat.Smc.{Bus}
use xstats.Micstat.Freq.{PllData}
use xstats.Micstat.Counters.{nbuf, Readings, restart_counters, restart_counters_lem}
use xstats.Micstat.Buffer.{Sampler, roll_buffer, samples, IsSampler, micstat_roll_buffer-IsSampler}

-- roll_buffer, whose return value the loop does not look at.
abbrev pub roll : (ℕ → ℕ → ℕ → ℕ) → Bus → PllData → Readings → Sampler → Result Sampler
roll scale smc pll now s = roll_buffer scale smc pll now s >>= λ (ret, s'). ok s'

abbrev pub kthread_function :
    (ℕ → ℕ → ℕ → ℕ) → Bus → PllData → List (Round Readings) → Sampler → Result (List ℕ × Sampler)
kthread_function scale smc pll = Thread.kthread_function (roll scale smc pll) (λ s. s.device.trace)

rolls :
    (scale : ℕ → ℕ → ℕ → ℕ) (smc : Bus) (pll : PllData)
    → Rolls
        (roll scale smc pll)
        (λ s. s.device.trace)
        (λ now. now.started)
        (λ s. samples s.ring)
        (append nbuf)
        IsSampler
rolls scale smc pll = record {
  rolls = λ now s v.
      let (s', run, v', kept, next, after) = micstat_roll_buffer-IsSampler scale smc pll now s v in
      let values =
        ap (restart_counters scale smc pll now s.device) v.shape
        ∙ restart_counters_lem scale smc pll now s.device v.events in
      (
        s',
        (restart_counters scale smc pll now s.device s.counters).0,
        rw run refl,
        v',
        kept,
        (ap (λ r. get_or r.0 0 0) values, ap (λ r. get_or r.0 1 0) values),
        next,
      );
}

-- Over any rounds, from statics in order, the thread does not fail and leaves them in order. It has
-- stored one row for each round before one that finds `on` cleared, up to one that is told to stop
-- after its sleep: the first word of the row is the time at which its round began, and the second
-- the time since the one before began. Where 128 rows are held, the oldest is given up for it.
pub micstat_thread_lem :
    (scale : ℕ → ℕ → ℕ → ℕ) (smc : Bus) (pll : PllData) (rounds : List (Round Readings))
    (s : Sampler)
    → IsSampler s
    → (slept : List ℕ) × (s' : Sampler) × (rows : List (List ℕ)) × (kthread_function scale smc pll
          rounds s
        ≡ ok (slept, s'))
      × IsSampler s'
      × Follow (λ (now : Readings). now.started) s.device.trace.st_current (executed rounds) rows
      × (samples s'.ring ≡ appends (append nbuf) (samples s.ring) rows)
micstat_thread_lem scale smc pll rounds s v =
    kthread_function_rolls (rolls scale smc pll) rounds s v
