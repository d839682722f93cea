-- ===== src/Xstat/Perf/Laws.antt =====
-- What the sum over the cpus is, and what a run of samples of one event adds up to.
use xstats.Base.{
  ℕ, ◌+◌, ◌-◌, ◌*◌, ◌^◌, ◌≤◌, ◌<◌, ◌≡◌, refl, List, [], ◌∷◌, map, Option, none, some, arith, length,
}
use xstats.Base.{sum, Option-cases, inl, inr}
use xstats.Xstat.World.{Hardware, PerfValue, PerfCounterPerCpu, PerfCounterContext}
use xstats.Xstat.Perf.{
  perf_overflow_threshold, record_value, contribution, restart_event, restart_events, perf_restart,
}

-- An event after a round: what it last counted is what was read. A cpu without event is left alone.
abbrev pub recorded : Hardware → PerfCounterPerCpu → PerfCounterPerCpu
recorded hw c = elim c.event [ none ↦ c | some e ↦ record_value (hw.perf_value e) c ]

module _ (scale : ℕ → ℕ → ℕ → ℕ) where
  abbrev pub share : Hardware → PerfCounterPerCpu → ℕ
  share hw c = elim c.event [ none ↦ 0 | some e ↦ contribution scale (hw.perf_value e) c ]

  abbrev pub shares : Hardware → List PerfCounterPerCpu → ℕ
  shares hw [] = 0
  shares hw (c ∷ cs) = share hw c + shares hw cs

  contribution_capped :
      (now : PerfValue) (c : PerfCounterPerCpu) → contribution scale now c ≤ perf_overflow_threshold
  unfolding contribution
  contribution_capped now c = ground arith

  share_capped : (hw : Hardware) (c : PerfCounterPerCpu) → share hw c ≤ perf_overflow_threshold
  share_capped hw c = go c.event refl
    where
      go : (o : Option ℕ) → c.event ≡ o → share hw c ≤ perf_overflow_threshold
      go none e = ground arith
      go (some h) e = ground (arith, contribution_capped (hw.perf_value h) c)

  shares_capped :
      (hw : Hardware) (cs : List PerfCounterPerCpu)
      → shares hw cs ≤ length cs * perf_overflow_threshold
  shares_capped hw [] = omega arith
  shares_capped hw (c ∷ cs) = omega (arith, share_capped hw c, shares_capped hw cs)

  restart_event_lem :
      (hw : Hardware) (total : ℕ) (c : PerfCounterPerCpu)
      → total + share hw c < 2 ^ 64
      → restart_event scale hw total c ≡ (total + share hw c, recorded hw c)
  unfolding restart_event
  restart_event_lem hw total c h = ground arith

  restart_events_lem :
      (hw : Hardware) (total : ℕ) (cs : List PerfCounterPerCpu)
      → total + length cs * perf_overflow_threshold < 2 ^ 64
      → restart_events scale hw total cs ≡ (total + shares hw cs, map (recorded hw) cs)
  unfolding restart_events
  restart_events_lem hw total [] h = ground arith
  restart_events_lem hw total (c ∷ cs) h = ground (
    arith,
    share_capped hw c,
    restart_event_lem hw total c,
    restart_events_lem hw (total + share hw c) cs,
  )

  -- Where 2T times the number of cpus is below 2 ^ 64, the total does not wrap: it is the sum of
  -- the cpus' shares, at most 2T for each cpu, and every event keeps what was read for the next
  -- round.
  pub perf_restart_lem :
      (hw : Hardware) (ctx : PerfCounterContext)
      → length ctx.events * perf_overflow_threshold < 2 ^ 64
      → (perf_restart scale hw ctx
          ≡ (shares hw ctx.events, record ctx { events = map (recorded hw) ctx.events }))
        × (shares hw ctx.events ≤ length ctx.events * perf_overflow_threshold)
  unfolding perf_restart
  perf_restart_lem hw ctx h =
      (ground (arith, restart_events_lem hw 0 ctx.events), shares_capped hw ctx.events)

  restart_event-lt :
      (hw : Hardware) (total : ℕ) (c : PerfCounterPerCpu)
      → total < 2 ^ 64
      → (restart_event scale hw total c).0 < 2 ^ 64
  unfolding restart_event
  restart_event-lt hw total c h = elim (Option-cases c.event) [
    | inl e ↦ rw e h
    | inr (event, e) ↦ rw e (omega arith)
  ]

  restart_events-lt :
      (hw : Hardware) (total : ℕ) (cs : List PerfCounterPerCpu)
      → total < 2 ^ 64
      → (restart_events scale hw total cs).0 < 2 ^ 64
  unfolding restart_events
  restart_events-lt hw total [] h = h
  restart_events-lt hw total (c ∷ cs) h =
      restart_events-lt hw (restart_event scale hw total c).0 cs (restart_event-lt hw total c h)

  -- A sample is a `uint64_t`, whether or not the total wraps.
  pub perf_restart-lt :
      (hw : Hardware) (ctx : PerfCounterContext) → (perf_restart scale hw ctx).0 < 2 ^ 64
  unfolding perf_restart
  perf_restart-lt hw ctx = restart_events-lt hw 0 ctx.events (omega arith)

  -- The samples of one event over the values read in successive rounds.
  pub event_samples : PerfCounterPerCpu → List PerfValue → List ℕ
  event_samples c [] = []
  event_samples c (v ∷ vs) = contribution scale v c ∷ event_samples (record_value v c) vs

  abbrev pub last_total : ℕ → List PerfValue → ℕ
  last_total t [] = t
  last_total t (v ∷ vs) = last_total v.total vs

  -- The event runs all the time that it is enabled, time goes on between two readings, and it
  -- counts at most 2T between them.
  abbrev pub IsSteady : PerfCounterPerCpu → List PerfValue → Type 0
  IsSteady c [] = Unit {0}
  IsSteady c (v ∷ vs) =
      (c.enabled ≡ c.running)
      × (v.enabled ≡ v.running)
      × (c.running < v.running)
      × (c.total ≤ v.total)
      × (v.total ≤ c.total + perf_overflow_threshold)
      × IsSteady (record_value v c) vs

  contribution_steady :
      (v : PerfValue) (c : PerfCounterPerCpu)
      → scale (v.total - c.total) (v.running - c.running) (v.running - c.running)
        ≡ v.total - c.total
      → c.enabled ≡ c.running
      → v.enabled ≡ v.running
      → c.running < v.running
      → c.total ≤ v.total
      → v.total ≤ c.total + perf_overflow_threshold
      → contribution scale v c ≡ v.total - c.total
  unfolding contribution
  contribution_steady v c exact ce ve t le cap = ground arith

  -- Where the product with the ratio of two equal times, not zero, rounds a difference of at most 2T to
  -- itself, as it does in doubles, the samples of a steady event add up to what it counted.
  pub event_samples-sum :
      ((d t : ℕ) → d ≤ perf_overflow_threshold → 0 < t → scale d t t ≡ d)
      → (c : PerfCounterPerCpu) (vs : List PerfValue) → IsSteady c vs
      → c.total + sum (event_samples c vs) ≡ last_total c.total vs
  unfolding event_samples record_value
  event_samples-sum exact c [] h = omega arith
  event_samples-sum exact c (v ∷ vs) (ce, ve, t, le, cap, rest) = omega (
    arith,
    contribution_steady v c (exact _ _ (omega arith) (omega arith)) ce ve t le cap,
    event_samples-sum exact (record_value v c) vs rest,
  )
