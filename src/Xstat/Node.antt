-- ===== src/Xstat/Node.antt =====
-- `struct xstat_node` of xstat/xstat.c and its sampling thread: init_counters, exit_counters,
-- roll_buffer and kthread_function. The spin lock of a node makes each update of its ring one step.
pub mod Sleep
pub mod Slots
pub mod Roll
pub mod Words
pub mod Lifecycle
pub mod Thread
pub mod Refused
use xstats.Base.{
  ℕ, zero, suc, ◌+◌, ◌-◌, ◌*◌, ◌/◌, ◌%◌, ◌^◌, Bool, true, false, ◌||◌, List, [], ◌∷◌, ◌++◌, Option,
  none, some, u32, sub64, get_elem?, leb, ltb, ◌==◌, if◌then◌else◌,
}
use xstats.Kernel.{Result, ok, failed, fault, or_fault, ◌>>=◌}
use xstats.Ring
use xstats.Ring.{Ring}
use xstats.Xstat.World.{Hardware, IpmiSensors, Ctx, as_word, Effect}
use xstats.Xstat.Table
use xstats.Xstat.Table.{Counter, Setup, World, node_counters}

-- XSTAT_NCNT and XSTAT_NBUF
abbrev pub ncnt : ℕ
ncnt = 16

abbrev pub nbuf : ℕ
nbuf = 256

-- The names and attributes of the node are those of its id: see Registry. `task` is the thread.
pub record Node : Type 0 where
  pub id : ℕ
  pub task : Option ℕ
  pub mask : List ℕ
  pub ctxs : List Ctx
  pub working_buf : List ℕ
  pub ring : Ring

-- The loops over `i`, with the counters and the slots from `i` on.
pub init_slots : (ℕ → Setup) → ℕ → List ℕ → List Counter → List Ctx → Result (List Ctx)
init_slots setup i mask [] slots = ok slots
init_slots setup i mask (c ∷ cs) [] = fault
init_slots setup i mask (c ∷ cs) (s ∷ slots) = do
  s' ← Table.init (setup i) c mask s
  slots' ← init_slots setup (i + 1) mask cs slots
  ok (s' ∷ slots')

pub init_counters : (ℕ → Setup) → Node → Result Node
init_counters setup node = do
  ctxs ← init_slots setup 0 node.mask node_counters node.ctxs
  ok (record node { ctxs = ctxs })

pub exit_slots : List Counter → List Ctx → Result (List Ctx × List Effect)
exit_slots [] slots = ok (slots, [])
exit_slots (c ∷ cs) [] = fault
exit_slots (c ∷ cs) (s ∷ slots) = do
  (s', freed) ← Table.exit c s
  (slots', others) ← exit_slots cs slots
  ok (s' ∷ slots', freed ++ others)

pub exit_counters : Node → Result (Node × List Effect)
exit_counters node = do
  (ctxs, effects) ← exit_slots node_counters node.ctxs
  ok (record node { ctxs = ctxs }, effects)

-- What is left of the period after `spent` ms, an `int` kept as its 32 bits: `ctrl_period` is
-- unsigned, so that the difference wraps before its sign is looked at, and the last comparison is
-- unsigned.
pub time_left : (period spent : ℕ) → ℕ
time_left period spent =
    let left = u32 (period + 2 ^ 33 - spent - 1) in
    let positive = if left == 0 || leb (2 ^ 31) left then 0 else left in
    if ltb period positive then period else positive

-- `tosleep` of kthread_function.
pub sleep_time : (period after_roll started : ℕ) → ℕ
sleep_time period after_roll started = time_left period (u32 (sub64 after_roll started / 1000000))

-- What a round of the thread meets: what responses and the threads of other nodes did to the sensors
-- since the last round, the readings, the time after the roll, the period set then, and whether the
-- thread is told to stop by the first or the second time that it asks.
pub record Round : Type 0 where
  pub meanwhile : IpmiSensors → IpmiSensors
  pub hw : Hardware
  pub after_roll : ℕ
  pub period : ℕ
  pub stop_first : Bool
  pub stop_second : Bool

-- The node, the sensors shared by all nodes, what was done outside and how long was slept.
pub record Progress : Type 0 where
  pub node : Node
  pub groups : IpmiSensors
  pub effects : List Effect
  pub slept : List ℕ

pub finish : Progress → Result Progress
finish t = do
  (node, released) ← exit_counters t.node
  ok (record t { node = node; effects = t.effects ++ released })

module _ (scale : ℕ → ℕ → ℕ → ℕ) where
  pub roll_values : Hardware → List Counter → ℕ → List ℕ → World → Result (List ℕ × World)
  roll_values hw [] i last w = ok ([], w)
  roll_values hw (c ∷ cs) i [] w = fault
  roll_values hw (c ∷ cs) i (l ∷ last) w = do
    (value, w') ← Table.restart scale hw c i l w
    (row, w'') ← roll_values hw cs (i + 1) last w'
    ok (value ∷ row, w'')

  pub roll_buffer : Hardware → Node → IpmiSensors → Result (Node × (IpmiSensors × List Effect))
  roll_buffer hw node groups = do
    let start : World = record { ctxs = node.ctxs; groups = groups; effects = [] }
    (row, w) ← roll_values hw node_counters 0 node.working_buf start
    ring ← Ring.push ncnt nbuf node.ring row
    ok (record node { ctxs = w.ctxs; working_buf = row; ring = ring }, (w.groups, w.effects))

  -- `while (true)`, as far as the rounds given go, where nobody reads or resets the ring meanwhile.
  pub sample_rounds : List Round → Progress → Result Progress
  sample_rounds [] t = ok t
  sample_rounds (r ∷ rounds) t = do
    (node, (groups, effects)) ← roll_buffer r.hw t.node (r.meanwhile t.groups)
    slot ← or_fault (get_elem? node.ctxs 1)
    started ← or_fault (as_word slot)
    let tosleep = sleep_time r.period r.after_roll started
    let rolled : Progress = record {
      node = node;
      groups = groups;
      effects = t.effects ++ effects;
      slept = t.slept;
    }
    let rested : Progress = record rolled { slept = t.slept ++ (tosleep ∷ []) }
    let next = sample_rounds rounds rested
    if r.stop_first then finish rolled else if r.stop_second then finish rested else next

  pub kthread_function : (ℕ → Setup) → List Round → Node → IpmiSensors → Result Progress
  kthread_function setup rounds node groups = do
    node' ← init_counters setup node
    sample_rounds rounds (record { node = node'; groups = groups; effects = []; slept = [] })
