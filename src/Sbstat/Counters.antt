-- ===== src/Sbstat/Counters.antt =====
-- A round of the counters of sbstat, and the pace of its thread.
use xstats.Base.{ℕ, ◌+◌, ◌*◌, ◌/◌, ◌^◌, ◌≤◌, ◌<◌, ◌≡◌, refl, List, [], ◌∷◌, arith, sub64}
use xstats.Sbstat.{
  Counter, ts, intv, temp, oh, perf, Cell, Trace, Readings, ts_restart, intv_restart, oh_restart,
  temp_restart, perf_restart, restart_counters, time_to_sleep,
}

-- A table of the shape of `counters`: the events of the seven perf counters may be any.
abbrev pub table : (a b c d e f g : List Cell) → List Counter
table a b c d e f g =
    ts
    ∷ intv
    ∷ temp
    ∷ perf 0x003c a
    ∷ perf 0x00c0 b
    ∷ perf 0x4f2e c
    ∷ perf 0x412e d
    ∷ perf 0x00c4 e
    ∷ perf 0x00c5 f
    ∷ perf 0x07f4 g
    ∷ oh
    ∷ []

module _ (scale : ℕ → ℕ → ℕ → ℕ) (now : Readings) (t : Trace) where
  abbrev count : List Cell → ℕ
  count cells = (perf_restart scale now.perf_value 0 cells).0

  abbrev counted : List Cell → List Cell
  counted cells = (perf_restart scale now.perf_value 0 cells).1

  -- Whatever the events, a round gives one row of eleven words in the order of the table: the time
  -- of its start, the time since the round before, the temperature, the seven counts, and the time
  -- that the round took; the trace then holds the start of the round before, and the start and the
  -- end of this one, and the table keeps its shape.
  pub restart_counters_lem :
      (a b c d e f g : List Cell)
      → restart_counters scale now t (table a b c d e f g) ≡ (
        now.started
            ∷ sub64 now.started t.st_current
            ∷ temp_restart now
            ∷ count a
            ∷ count b
            ∷ count c
            ∷ count d
            ∷ count e
            ∷ count f
            ∷ count g
            ∷ sub64 now.ended now.started
            ∷ [],
        (
          record { st_prev = t.st_current; st_current = now.started; st_oh = now.ended },
          table (counted a) (counted b) (counted c) (counted d) (counted e) (counted f) (counted g),
        ),
      )
  unfolding restart_counters ts_restart intv_restart oh_restart
  restart_counters_lem a b c d e f g = refl

-- Whole milliseconds that the last round took.
abbrev pub spent : Trace → ℕ
spent t = sub64 t.st_oh t.st_current / 1000000

-- Where the period is below 10000 and a round took less than 2 ^ 29 ms, the rounds start at least a
-- period apart, and the time taken is at most a fifth of the distance.
pub time_to_sleep_lem :
    (period : ℕ) (t : Trace)
    → period < 10000
    → spent t < 2 ^ 29
    → (period ≤ spent t + time_to_sleep period t)
      × (5 * spent t ≤ spent t + time_to_sleep period t)
      × (time_to_sleep period t < 2 ^ 31)
unfolding time_to_sleep
time_to_sleep_lem period t p s = ground arith

-- A fifth is reached: a round of a second in a period of five leaves exactly four to sleep.
pub time_to_sleep-fifth :
    (t : Trace) → spent t ≡ 1000 → 5 * spent t ≡ spent t + time_to_sleep 5000 t
unfolding time_to_sleep
time_to_sleep-fifth t s = ground arith
