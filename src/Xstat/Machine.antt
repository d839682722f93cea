-- ===== src/Xstat/Machine.antt =====
-- The whole module of xstat/xstat.c at work: its nodes with their threads, the sensors that they share
-- and the switch `ctrl`. What happens to one node is an action of Xstat/Life.
pub mod Laws
pub mod Place
pub mod Switch
pub mod Run
pub mod Loaded
use xstats.Base.{
  ℕ, zero, suc, ◌+◌, Bool, true, false, List, [], ◌∷◌, Option, none, some, set, get_or, ◌==◌,
  if◌then◌else◌,
}
use xstats.Kernel.{Result, ok, ◌>>=◌}
use xstats.Kernel.Printf.{Scnprintf}
use xstats.Xstat.World.{Hardware, PerfEventConfig, IpmiSensors, Group, group, set_group, Effect}
use xstats.Xstat.Ipmi.{msg_handler}
use xstats.Xstat.Node.{Node, exit_counters}
use xstats.Xstat.Control.{Module, start_stat, stop_stat}
use xstats.Xstat.Registry.{node_at}
use xstats.Xstat.Life
use xstats.Xstat.Life.{Phase, idle, woken, sampling, Outcome, nothing, and_then}

-- How far the thread of each place is.
pub record State : Type 0 where
  pub module_state : Module
  pub phases : ℕ → Phase

-- What happens to one node: its thread begins or runs a round, `stat` is read, `reset` is written.
pub data Own : Type 0 where
  begin : (memory : ℕ → Bool) (create : PerfEventConfig → ℕ → Option ℕ) → Own
  roll : (hw : Hardware) → Own
  read : Own
  reset : (count : ℕ) → Own

abbrev pub action_of : Own → Life.Action
action_of (begin memory create) = Life.begin memory create
action_of (roll hw) = Life.roll hw
action_of read = Life.read
action_of (reset count) = Life.reset count

-- `on` and `off` are writes of `ctrl`, the first with the threads that the kernel makes.
pub data Event : Type 0 where
  on : (create : ℕ → Option ℕ) → Event
  off : Event
  receive : (g : Group) (sensor : Option ℕ) (payload : List ℕ) → Event
  own : (i : ℕ) (a : Own) → Event

abbrev pub view : IpmiSensors → Phase → Node → Life.State
view groups phase node = record { node = node; groups = groups; phase = phase }

-- A function changed at one place.
pub at_place {ℓ} : {A : Type ℓ} → ℕ → A → (ℕ → A) → ℕ → A
at_place i x f j = if j == i then x else f j

-- kthread_stop waits for a thread that samples, which gives up its counters and leaves.
pub leave_node : Phase → Node → Result (Node × List Effect)
leave_node sampling node = exit_counters node
leave_node idle node = ok (node, [])
leave_node woken node = ok (node, [])

-- With the releases of each place. The phases are those of the places in `nodes`.
pub leave_nodes :
    (ℕ → Phase) → List (Option Node) → Result (List (Option Node) × List (List Effect))
leave_nodes phases [] = ok ([], [])
leave_nodes phases (none ∷ nodes) = do
  (nodes', released) ← leave_nodes (λ j. phases (suc j)) nodes
  ok (none ∷ nodes', [] ∷ released)
leave_nodes phases (some node ∷ nodes) = do
  (node', effects) ← leave_node (phases 0) node
  (nodes', released) ← leave_nodes (λ j. phases (suc j)) nodes
  ok (some node' ∷ nodes', effects ∷ released)

-- By whether the module is on.
pub switch_on : (ℕ → Option ℕ) → Bool → State → State
switch_on create true s = s
switch_on create false s = record {
  module_state = (start_stat create s.module_state).0;
  phases = λ j. woken;
}

-- No event falls between the threads' leaving and the end of stop_stat.
pub switch_off : Bool → State → Result ((ℕ → Outcome) × State)
switch_off false s = ok (λ j. nothing, s)
switch_off true s = do
  (nodes, released) ← leave_nodes s.phases s.module_state.nodes
  (m, stopped) ← stop_stat (record s.module_state { nodes = nodes })
  ok (
    λ j. record nothing { released = get_or released j [] },
    record { module_state = m; phases = λ j. idle },
  )

abbrev pub put : ℕ → Life.State → State → State
put i l s = record {
  module_state = record s.module_state {
    nodes = set s.module_state.nodes i (some l.node);
    groups = l.groups;
  };
  phases = at_place i l.phase s.phases;
}

module _ (scale : ℕ → ℕ → ℕ → ℕ) (printf : Scnprintf) where
  -- Where there is no node, there is no thread and no file.
  pub step_own : ℕ → Own → Option Node → State → Result ((ℕ → Outcome) × State)
  step_own i a none s = ok (λ j. nothing, s)
  step_own i a (some node) s = do
    (o, l) ← Life.act scale printf (action_of a) (view s.module_state.groups (s.phases i) node)
    ok (at_place i o (λ j. nothing), put i l s)

  -- What came of it at each place.
  pub step : Event → State → Result ((ℕ → Outcome) × State)
  step (on create) s = ok (λ j. nothing, switch_on create s.module_state.ctrl_on s)
  step off s = switch_off s.module_state.ctrl_on s
  step (receive g sensor payload) s =
      let groups = s.module_state.groups in
      let ctx = msg_handler (group g groups) sensor payload in
      ok (
        λ j. nothing,
        record s { module_state = record s.module_state { groups = set_group g ctx groups } },
      )
  step (own i a) s = step_own i a (node_at s.module_state.nodes i) s

  pub run : List Event → State → Result ((ℕ → Outcome) × State)
  run [] s = ok (λ j. nothing, s)
  run (a ∷ acts) s = do
    (outs, mid) ← step a s
    (outs', s') ← run acts mid
    ok (λ j. and_then (outs j) (outs' j), s')
