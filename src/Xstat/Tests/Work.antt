-- ===== src/Xstat/Tests/Work.antt =====
-- A test of the module at work.
use mathlib.Core.List.{Sublist}
use xstats.Base.{
  ℕ, zero, suc, true, false, none, some, List, [], ◌∷◌, ◌++◌, ◌+◌, ◌≡◌, ◌⊎◌, refl, map, concat,
  arith,
}
use xstats.Kernel.{ok}
use xstats.Xstat.World.{group_b, release}
use xstats.Xstat.Ipmi.Sensors.{ipmi_sensors, ipmi_sensors-AreSensors}
use xstats.Xstat.Node.{Node}
use xstats.Xstat.Node.Roll.{field, samples}
use xstats.Xstat.Show.Line.{line_text}
use xstats.Xstat.Control.{Module}
use xstats.Xstat.Registry.{node_at, new_node}
use xstats.Xstat.Life.{Outcome, idle}
use xstats.Xstat.Life.Laws.{held_slots}
use xstats.Xstat.Life.Delivers.{new_node-IsAlive}
use xstats.Xstat.Machine.{State, Event, on, off, receive, own, begin, roll, read, reset, view, run}
use xstats.Xstat.Machine.Laws.{IsPlace, place, IsOperating}
use xstats.Xstat.Machine.Run.{xstat_run_lem}
use xstats.Xstat.Machine.Loaded.{loaded}
use xstats.Xstat.Tests.{
  plain, exact_scale, hw, make_event, make_thread, site, site-IsServed, registers_small,
}

-- Three places, two nodes, off.
abbrev m : Module
m = record {
  ctrl_on = false;
  ctrl_period = 1000;
  nodes = some (new_node site 0) ∷ some (new_node site 1) ∷ none ∷ [];
  groups = ipmi_sensors;
}

new_node-IsPlace : (nid : ℕ) → IsPlace false ipmi_sensors idle (some (new_node site nid))
new_node-IsPlace nid = (
  new_node-IsAlive (view ipmi_sensors idle (new_node site nid)) site nid refl refl site-IsServed
      ipmi_sensors-AreSensors,
  tt,
)

m_places : (j : ℕ) → IsPlace false ipmi_sensors idle (node_at m.nodes j)
m_places zero = new_node-IsPlace 0
m_places (suc zero) = new_node-IsPlace 1
m_places (suc (suc zero)) = tt
m_places (suc (suc (suc j))) = tt

m-IsOperating : IsOperating (loaded m)
m-IsOperating = record { places = m_places; are_sensors = ipmi_sensors-AreSensors }

-- Both nodes sample, one is read and the other reset, and both are stopped.
abbrev events : List Event
events =
    own 0 read
    ∷ on make_thread
    ∷ own 0 (begin (λ i. true) make_event)
    ∷ own 1 (begin (λ i. true) make_event)
    ∷ own 0 (roll hw)
    ∷ receive group_b (some 2) (0 ∷ 77 ∷ 192 ∷ [])
    ∷ own 1 (roll hw)
    ∷ own 0 read
    ∷ own 1 (reset 2)
    ∷ own 0 (roll hw)
    ∷ off
    ∷ own 0 read
    ∷ []

xstat_run_example :
    (outs : ℕ → Outcome) × (s' : State) × (node' : Node) × (brought : List (List ℕ))
    × (delivered : List (List ℕ)) × (run exact_scale plain events (loaded m) ≡ ok (outs, s'))
    × IsOperating s'
    × (place s' 0 ≡ some node')
    × (map (field 0) brought ≡ (outs 0).times)
    × ((outs 0).text ≡ concat (map (line_text ipmi_sensors) delivered))
    × Sublist (delivered ++ samples node') (samples (new_node site 0) ++ brought)
    × (held_slots (new_node site 0).ctxs ++ map release (outs 0).made
        ≡ (outs 0).released ++ held_slots node'.ctxs)
    × ((s'.module_state.ctrl_on ≡ true) ⊎ (held_slots node'.ctxs ≡ []))
xstat_run_example =
    xstat_run_lem exact_scale plain events (loaded m) 0 (new_node site 0)
      (
        tt,
        (
          λ i. (i + 100, refl),
          (
            λ i. refl,
            (
              λ i. refl,
              (
                registers_small,
                (
                  (omega arith, (omega arith, (omega arith, tt))),
                  (registers_small, (tt, (tt, (registers_small, (tt, (tt, tt)))))),
                ),
              ),
            ),
          ),
        ),
      )
      m-IsOperating refl
