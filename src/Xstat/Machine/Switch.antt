-- ===== src/Xstat/Machine/Switch.antt =====
-- Starting and stopping all threads keeps every place.
use mathlib.Core.Path.{subst}
use xstats.Base.{
  ℕ, zero, suc, ◌+◌, Bool, true, false, Option, none, some, List, [], ◌∷◌, ◌≡◌, refl, get_or,
}
use xstats.Kernel.{ok}
use xstats.Xstat.World.{IpmiSensors, Effect}
use xstats.Xstat.Node.{Node}
use xstats.Xstat.Node.Lifecycle.{exit_counters_lem, released, stopped, idle_slots}
use xstats.Xstat.Control.{start_node, start_nodes, start_stat, stop_node, stop_nodes, stop_stat}
use xstats.Xstat.Control.Threads.{stop_node-task}
use xstats.Xstat.Registry.{node_at}
use xstats.Xstat.Life
use xstats.Xstat.Life.{Phase, idle, woken, sampling, Outcome, nothing, start_thread, stop_thread}
use xstats.Xstat.Life.Moves.{start_thread-Goes, stop_thread-Goes}
use xstats.Xstat.Machine.{State, view, leave_node, leave_nodes, switch_on, switch_off}
use xstats.Xstat.Machine.Laws.{IsPlace, PlaceKeeps, place, IsOperating, Steps, Goes-ok}
use xstats.Xstat.Machine.Place.{regroup}

-- What holds of the first place and of all that follow holds of all.
at_all {κ} : (P : ℕ → Type κ) → P 0 → ((j : ℕ) → P (suc j)) → (j : ℕ) → P j
at_all P first rest zero = first
at_all P first rest (suc j) = rest j

-- From one place to the same place with the module switched to `on`.
Switched : Bool → IpmiSensors → Phase → Option Node → Outcome → Phase → Option Node → Type 0
Switched on g p n o p' n' = IsPlace on g p' n' × PlaceKeeps g p n o g p' n'

-- The kernel makes every thread.
abbrev pub Makes : (ℕ → Option ℕ) → Type 0
Makes create = (i : ℕ) → (thread : ℕ) × (create i ≡ some thread)

start_one :
    (made : Option ℕ) (thread : ℕ) (g : IpmiSensors) (p : Phase) (node : Node)
    → made ≡ some thread
    → IsPlace false g p (some node)
    → Switched true g p (some node) nothing woken (some (start_node made node).0)
unfolding start_thread Switched
start_one made thread g idle node e (alive, off) =
    let s' : Life.State = view g woken (start_node (some thread) node).0 in
    let k =
      Goes-ok (view g idle node) s' (start_thread thread idle (view g idle node)) nothing
        (start_thread-Goes thread idle (view g idle node) refl alive) refl in
    rw e ((k.alive, tt), k)
start_one made thread g woken node e (alive, off) = absurd off
start_one made thread g sampling node e (alive, off) = absurd off

start_nodes-Switched :
    (create : ℕ → Option ℕ) (i : ℕ) (nodes : List (Option Node)) (g : IpmiSensors)
    (phases : ℕ → Phase)
    → Makes create
    → ((j : ℕ) → IsPlace false g (phases j) (node_at nodes j))
    → (j : ℕ)
    → Switched true g
        (phases j)
        (node_at nodes j)
        nothing
        woken
        (node_at (start_nodes create i nodes).0 j)
unfolding start_nodes Switched
start_nodes-Switched create i [] g phases made v j = (tt, tt)
start_nodes-Switched create i (none ∷ nodes) g phases made v zero = (tt, tt)
start_nodes-Switched create i (some node ∷ nodes) g phases made v zero =
    start_one (create i) (made i).0 g (phases 0) node (made i).1 (v 0)
start_nodes-Switched create i (none ∷ nodes) g phases made v (suc j) =
    start_nodes-Switched create (i + 1) nodes g (λ k. phases (suc k)) made (λ k. v (suc k)) j
start_nodes-Switched create i (some node ∷ nodes) g phases made v (suc j) =
    start_nodes-Switched create (i + 1) nodes g (λ k. phases (suc k)) made (λ k. v (suc k)) j

-- Nothing happens.
still : (s : State) → IsOperating s → Steps s (ok (λ j. nothing, s))
still s v = (
  λ j. nothing,
  s,
  refl,
  v,
  λ j.
      (regroup s.module_state.ctrl_on _ _ (s.phases j) (place s j) (λ g. refl) v.are_sensors
        (v.places j)).1,
)

pub switch_on-Steps :
    (create : ℕ → Option ℕ) (c : Bool) (s : State)
    → Makes create
    → s.module_state.ctrl_on ≡ c
    → IsOperating s
    → Steps s (ok (λ j. nothing, switch_on create c s))
unfolding switch_on start_stat Switched
switch_on-Steps create true s made e v = still s v
switch_on-Steps create false s made e v =
    let m = s.module_state in
    let after =
      start_nodes-Switched create 0 m.nodes m.groups s.phases made
        (λ j. subst (λ c. IsPlace c m.groups (s.phases j) (place s j)) e (v.places j)) in
    (
      λ j. nothing,
      record {
        module_state = record m { ctrl_on = true; nodes = (start_nodes create 0 m.nodes).0 };
        phases = λ j. woken;
      },
      rw e refl,
      record { places = λ j. (after j).0; are_sensors = v.are_sensors },
      λ j. (after j).1,
    )

-- A thread leaves and is stopped.
Left : IpmiSensors → Phase → Node → Type 0
Left g p node =
    (node' : Node) × (effects : List Effect) × (node'' : Node) × (thread : ℕ) × (leave_node p node
      ≡ ok (node', effects))
    × (stop_node node' ≡ ok (node'', thread))
    × Switched false g p (some node) (record nothing { released = effects }) idle (some node'')

leave_one :
    (g : IpmiSensors) (p : Phase) (node : Node) → IsPlace true g p (some node) → Left g p node
unfolding Left leave_node stop_thread Switched
leave_one g idle node (alive, on) = absurd on
leave_one g woken node (alive, on) =
    let ((thread, task), rests) = alive.in_phase in
    let stop = stop_node-task node thread task in
    let node'' : Node = record node { task = none } in
    let k =
      Goes-ok (view g woken node) (view g idle node'') (stop_thread woken (view g woken node))
        nothing (stop_thread-Goes woken (view g woken node) refl alive) (rw stop refl) in
    (node, [], node'', thread, refl, stop, ((k.alive, tt), k))
leave_one g sampling node (alive, on) =
    let ((thread, task), slots, live) = alive.in_phase in
    let node' : Node = record node { ctxs = idle_slots (stopped slots) } in
    let node'' : Node = record node' { task = none } in
    let leave = exit_counters_lem node slots live.slots_are in
    let stop = stop_node-task node' thread task in
    let k =
      Goes-ok (view g sampling node) (view g idle node'')
        (stop_thread sampling (view g sampling node)) (record nothing { released = released slots })
        (stop_thread-Goes sampling (view g sampling node) refl alive) (rw (leave, stop) refl) in
    (node', released slots, node'', thread, leave, stop, ((k.alive, tt), k))

AllLeft : IpmiSensors → (ℕ → Phase) → List (Option Node) → Type 0
AllLeft g phases nodes =
    (nodes' : List (Option Node)) × (effects : List (List Effect)) × (nodes'' : List (Option Node))
    × (threads : List ℕ) × (leave_nodes phases nodes ≡ ok (nodes', effects))
    × (stop_nodes nodes' ≡ ok (nodes'', threads))
    × ((j : ℕ)
        → Switched false g (phases j) (node_at nodes j)
            (record nothing { released = get_or effects j [] }) idle (node_at nodes'' j))

leave_all :
    (g : IpmiSensors) (nodes : List (Option Node)) (phases : ℕ → Phase)
    → ((j : ℕ) → IsPlace true g (phases j) (node_at nodes j))
    → AllLeft g phases nodes
unfolding AllLeft leave_nodes stop_nodes Switched Left
leave_all g [] phases v = ([], [], [], [], refl, refl, λ j. (tt, tt))
leave_all g (none ∷ nodes) phases v =
    let (nodes', effects, nodes'', threads, leave, stop, after) =
      leave_all g nodes (λ j. phases (suc j)) (λ j. v (suc j)) in
    (
      none ∷ nodes',
      [] ∷ effects,
      none ∷ nodes'',
      threads,
      rw leave refl,
      rw stop refl,
      at_all _ (tt, tt) after,
    )
leave_all g (some node ∷ nodes) phases v =
    let (node', released, node'', thread, leave, stop, now) = leave_one g (phases 0) node (v 0) in
    let (nodes', effects, nodes'', threads, leave', stop', after) =
      leave_all g nodes (λ j. phases (suc j)) (λ j. v (suc j)) in
    (
      some node' ∷ nodes',
      released ∷ effects,
      some node'' ∷ nodes'',
      thread ∷ threads,
      rw (leave, leave') refl,
      rw (stop, stop') refl,
      at_all _ now after,
    )

pub switch_off-Steps :
    (c : Bool) (s : State) → s.module_state.ctrl_on ≡ c → IsOperating s → Steps s (switch_off c s)
unfolding switch_off stop_stat AllLeft Switched
switch_off-Steps false s e v = still s v
switch_off-Steps true s e v =
    let m = s.module_state in
    let (nodes', effects, nodes'', threads, leave, stop, after) =
      leave_all m.groups m.nodes s.phases
        (λ j. subst (λ c. IsPlace c m.groups (s.phases j) (place s j)) e (v.places j)) in
    (
      λ j. record nothing { released = get_or effects j [] },
      record { module_state = record m { ctrl_on = false; nodes = nodes'' }; phases = λ j. idle },
      rw (leave, e, stop) refl,
      record { places = λ j. (after j).0; are_sensors = v.are_sensors },
      λ j. (after j).1,
    )
