-- ===== src/Xstat/Node/Lifecycle.antt =====
-- init_counters and exit_counters, around the sampling of a node.
use xstats.Base.{ℕ, ◌≡◌, refl, true, List, [], ◌∷◌, ◌++◌, length, Option}
use xstats.Kernel.{ok}
use xstats.Ring.Refine.{IsValid}
use xstats.Xstat.World.{
  PerfEventConfig, PerfCounterContext, Effect, Ctx, word, ipmi, freed, null, group_a, group_b, misc,
}
use xstats.Xstat.Ipmi
use xstats.Xstat.Perf.{create_events, perf_init, perf_exit}
use xstats.Xstat.Table.{
  Event, cyc, inst, llcref, llcmiss, br, brmiss, l2lin, Setup, event_config, init, exit, exit_event,
  node_counters,
}
use xstats.Xstat.Node.{Node, ncnt, nbuf, init_slots, init_counters, exit_slots, exit_counters}
use xstats.Xstat.Node.Slots.{Slots, slots_of}

-- Slots from which the thread can start: those of ts, intv and energy hold numbers, and those of the
-- counters without `init` were never written. The others are overwritten.
pub record Idle : Type 0 where
  pub before : ℕ
  pub time : ℕ
  pub joules : ℕ
  pub slot_cyc : Ctx
  pub slot_inst : Ctx
  pub slot_llcref : Ctx
  pub slot_llcmiss : Ctx
  pub slot_br : Ctx
  pub slot_brmiss : Ctx
  pub slot_l2lin : Ctx
  pub slot_a : Ctx
  pub slot_b : Ctx
  pub slot_misc : Ctx

abbrev pub idle_slots : Idle → List Ctx
idle_slots s =
    word s.before
    ∷ word s.time
    ∷ s.slot_cyc
    ∷ s.slot_inst
    ∷ s.slot_llcref
    ∷ s.slot_llcmiss
    ∷ s.slot_br
    ∷ s.slot_brmiss
    ∷ s.slot_l2lin
    ∷ null
    ∷ word s.joules
    ∷ null
    ∷ null
    ∷ s.slot_a
    ∷ s.slot_b
    ∷ s.slot_misc
    ∷ []

-- A node whose thread is not running.
pub record IsIdle (node : Node) : Type 0 where
  pub idle : Idle
  pub slots_are : node.ctxs ≡ idle_slots idle
  pub working : length node.working_buf ≡ ncnt
  pub in_order : IsValid ncnt nbuf node.ring

module _ (create : PerfEventConfig → ℕ → Option ℕ) where
  -- The setup where every allocation succeeds.
  abbrev pub plenty : ℕ → Setup
  plenty i = record { allocated = true; create = create }

  abbrev pub fresh_context : List ℕ → Event → PerfCounterContext
  fresh_context mask e = record {
    config = event_config e;
    mask = mask;
    events = create_events create (event_config e) mask;
  }

  abbrev pub fresh_slots : List ℕ → Idle → Slots
  fresh_slots mask s = record {
    before = s.before;
    time = s.time;
    cycles = fresh_context mask cyc;
    instructions = fresh_context mask inst;
    llc_refs = fresh_context mask llcref;
    llc_misses = fresh_context mask llcmiss;
    branches = fresh_context mask br;
    branch_misses = fresh_context mask brmiss;
    l2_lines = fresh_context mask l2lin;
    joules = s.joules;
  }

  pub init_counters_lem :
      (node : Node) (v : IsIdle node)
      → init_counters plenty node
        ≡ ok (record node { ctxs = slots_of (fresh_slots node.mask v.idle) })
  unfolding init_counters init_slots init perf_init Ipmi.cnt_init
  init_counters_lem node v = rw v.slots_are refl

abbrev pub released : Slots → List Effect
released s =
    perf_exit s.cycles
    ++ (perf_exit s.instructions
        ++ (perf_exit s.llc_refs
            ++ (perf_exit s.llc_misses
                ++ (perf_exit s.branches
                    ++ (perf_exit s.branch_misses ++ (perf_exit s.l2_lines ++ []))))))

abbrev pub stopped : Slots → Idle
stopped s = record {
  before = s.before;
  time = s.time;
  joules = s.joules;
  slot_cyc = freed;
  slot_inst = freed;
  slot_llcref = freed;
  slot_llcmiss = freed;
  slot_br = freed;
  slot_brmiss = freed;
  slot_l2lin = freed;
  slot_a = ipmi group_a;
  slot_b = ipmi group_b;
  slot_misc = ipmi misc;
}

pub exit_slots_lem :
    (s : Slots) → exit_slots node_counters (slots_of s) ≡ ok (idle_slots (stopped s), released s)
unfolding exit_slots exit exit_event
exit_slots_lem s = refl

-- exit_counters on a sampling node leaves the slots stopped.
pub exit_counters_lem :
    (node : Node) (s : Slots)
    → node.ctxs ≡ slots_of s
    → exit_counters node ≡ ok (record node { ctxs = idle_slots (stopped s) }, released s)
unfolding exit_counters
exit_counters_lem node s e = rw (e, exit_slots_lem s) refl
