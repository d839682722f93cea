-- ===== src/Haswellstat/Thread.antt =====
-- kthread_function of haswellstat.
use xstats.Base.{ℕ, ◌≡◌, refl, ap, ◌∙◌, List, get_or}
use xstats.Kernel.{Result, ok, ◌>>=◌}
use xstats.Thread
use xstats.Thread.{Round, executed, Follow, appends, Rolls, kthread_function_rolls}
use xstats.Ring.Refine.{append}
use xstats.Sbstat.{Readings}
use xstats.Sbstat.Counters.{restart_counters_lem}
use xstats.Sbstat.Buffer.{Sampler, IsSampler}
use xstats.Haswellstat.{nbuf, restart_counters}
use xstats.Haswellstat.Buffer.{roll_buffer, samples, haswell_roll_buffer-IsSampler}

-- roll_buffer, whose return value the loop does not look at.
abbrev pub roll : (ℕ → ℕ → ℕ → ℕ) → Readings → Sampler → Result Sampler
roll scale now s = roll_buffer scale now s >>= λ (ret, s'). ok s'

abbrev pub kthread_function :
    (ℕ → ℕ → ℕ → ℕ) → List (Round Readings) → Sampler → Result (List ℕ × Sampler)
kthread_function scale = Thread.kthread_function (roll scale) (λ s. s.trace)

rolls :
    (scale : ℕ → ℕ → ℕ → ℕ)
    → Rolls
        (roll scale)
        (λ s. s.trace)
        (λ now. now.started)
        (λ s. samples s.ring)
        (append nbuf)
        IsSampler
rolls scale = record {
  rolls = λ now s v.
      let (s', run, v', kept, next, after) = haswell_roll_buffer-IsSampler scale now s v in
      let values =
        ap (restart_counters scale now s.trace) v.shape
        ∙ restart_counters_lem scale now s.trace v.a v.b v.c v.d v.e v.f v.g in
      (
        s',
        (restart_counters scale now s.trace s.counters).0,
        rw run refl,
        v',
        kept,
        (ap (λ r. get_or r.0 0 0) values, ap (λ r. get_or r.0 1 0) values),
        next,
      );
}

-- Over any rounds, from statics in order, the thread does not fail and leaves them in order. It has
-- stored one row for each round before one that finds `on` cleared, up to one that is told to stop
-- after its sleep: the first word of the row is the time at which its round began, and the second
-- the time since the one before began. Where 128 rows are held, the oldest is given up for it.
pub haswell_thread_lem :
    (scale : ℕ → ℕ → ℕ → ℕ) (rounds : List (Round Readings)) (s : Sampler)
    → IsSampler s
    → (slept : List ℕ) × (s' : Sampler) × (rows : List (List ℕ)) × (kthread_function scale rounds s
        ≡ ok (slept, s'))
      × IsSampler s'
      × Follow (λ (now : Readings). now.started) s.trace.st_current (executed rounds) rows
      × (samples s'.ring ≡ appends (append nbuf) (samples s.ring) rows)
haswell_thread_lem scale rounds s v = kthread_function_rolls (rolls scale) rounds s v
