-- ===== src/Xstat/Node/Slots.antt =====
-- The slots of a node whose counters are initialised, and a round of sampling over them.
use xstats.Base.{ℕ, ◌≡◌, refl, List, [], ◌∷◌, ◌++◌, sub64}
use xstats.Kernel.{ok}
use xstats.Xstat.World.{
  Hardware, pkg_energy_status, PerfCounterContext, group_a, group_b, misc, IpmiSensors, Ctx, word,
  perf, ipmi, null, Effect,
}
use xstats.Xstat.Clock.{get_time, ts_restart, intv_restart}
use xstats.Xstat.Msr.{temp_restart, energy_restart, eunit_restart, perflmt_restart}
use xstats.Xstat.Perf.{perf_restart}
use xstats.Xstat.Ipmi
use xstats.Xstat.Table.{node_counters, restart}
use xstats.Xstat.Node.{roll_values}

-- What the slots hold while the thread samples: the last two times, an event context for each
-- hardware counter, the energy register, and the sensor groups.
pub record Slots : Type 0 where
  pub before : ℕ
  pub time : ℕ
  pub cycles : PerfCounterContext
  pub instructions : PerfCounterContext
  pub llc_refs : PerfCounterContext
  pub llc_misses : PerfCounterContext
  pub branches : PerfCounterContext
  pub branch_misses : PerfCounterContext
  pub l2_lines : PerfCounterContext
  pub joules : ℕ

abbrev pub slots_of : Slots → List Ctx
slots_of s =
    word s.before
    ∷ word s.time
    ∷ perf s.cycles
    ∷ perf s.instructions
    ∷ perf s.llc_refs
    ∷ perf s.llc_misses
    ∷ perf s.branches
    ∷ perf s.branch_misses
    ∷ perf s.l2_lines
    ∷ null
    ∷ word s.joules
    ∷ null
    ∷ null
    ∷ ipmi group_a
    ∷ ipmi group_b
    ∷ ipmi misc
    ∷ []

module _ (scale : ℕ → ℕ → ℕ → ℕ) (hw : Hardware) where
  abbrev count : PerfCounterContext → ℕ
  count ctx = (perf_restart scale hw ctx).0

  abbrev counted : PerfCounterContext → PerfCounterContext
  counted ctx = (perf_restart scale hw ctx).1

  -- The slots after a round.
  abbrev pub next_slots : ℕ → Slots → Slots
  next_slots last s = record {
    before = last;
    time = get_time hw;
    cycles = counted s.cycles;
    instructions = counted s.instructions;
    llc_refs = counted s.llc_refs;
    llc_misses = counted s.llc_misses;
    branches = counted s.branches;
    branch_misses = counted s.branch_misses;
    l2_lines = counted s.l2_lines;
    joules = hw.msr pkg_energy_status;
  }

  -- The row of a round: the order is that of the table.
  abbrev pub row_of : ℕ → Slots → IpmiSensors → List ℕ
  row_of last s g =
      get_time hw
      ∷ sub64 (get_time hw) last
      ∷ count s.cycles
      ∷ count s.instructions
      ∷ count s.llc_refs
      ∷ count s.llc_misses
      ∷ count s.branches
      ∷ count s.branch_misses
      ∷ count s.l2_lines
      ∷ temp_restart hw
      ∷ (energy_restart hw s.joules).0
      ∷ eunit_restart hw
      ∷ (perflmt_restart hw).0
      ∷ (Ipmi.restart g.at_a).0
      ∷ (Ipmi.restart g.at_b).0
      ∷ (Ipmi.restart g.at_misc).0
      ∷ []

  abbrev pub next_groups : IpmiSensors → IpmiSensors
  next_groups g = record {
    at_a = (Ipmi.restart g.at_a).1.0;
    at_b = (Ipmi.restart g.at_b).1.0;
    at_misc = (Ipmi.restart g.at_misc).1.0;
  }

  abbrev pub effects_of : IpmiSensors → List Effect
  effects_of g =
      ((((perflmt_restart hw).1 ∷ []) ++ (Ipmi.restart g.at_a).1.1) ++ (Ipmi.restart g.at_b).1.1)
      ++ (Ipmi.restart g.at_misc).1.1

  -- The sixteen last values; only the time is used.
  abbrev pub last_row : ℕ → List ℕ → List ℕ
  last_row t rest = t ∷ rest

  pub roll_values_lem :
      (s : Slots) (g : IpmiSensors) (l0 l1 l2 l3 l4 l5 l6 l7 l8 l9 l10 l11 l12 l13 l14 l15 : ℕ)
      → roll_values scale hw node_counters 0
          (l0 ∷ l1 ∷ l2 ∷ l3 ∷ l4 ∷ l5 ∷ l6 ∷ l7 ∷ l8 ∷ l9 ∷ l10 ∷ l11 ∷ l12 ∷ l13 ∷ l14 ∷ l15 ∷ [])
          (record { ctxs = slots_of s; groups = g; effects = [] })
        ≡ ok (
          row_of l0 s g,
          record {
            ctxs = slots_of (next_slots l0 s);
            groups = next_groups g;
            effects = effects_of g;
          },
        )
  unfolding roll_values restart ts_restart intv_restart energy_restart
  roll_values_lem s g l0 l1 l2 l3 l4 l5 l6 l7 l8 l9 l10 l11 l12 l13 l14 l15 = refl
