-- ===== src/Xstat/Tests/Events.antt =====
-- Tests of what happens to a node from its registration on.
use xstats.Base.{true, All, ℕ, some, ◌≡◌, refl, List, [], ◌∷◌, map, concat, arith}
use xstats.Kernel.{ok}
use xstats.Xstat.World.{group_b}
use xstats.Xstat.Node.Words.{AreWords}
use xstats.Xstat.Ipmi.Sensors.{ipmi_sensors, ipmi_sensors-AreSensors}
use xstats.Xstat.Node.Roll.{samples}
use xstats.Xstat.Show.Line.{line_text}
use xstats.Xstat.Registry.{new_node}
use xstats.Xstat.Life.{
  State, idle, Action, start, begin, roll, elsewhere, receive, read, stop, reset, Outcome, run,
}
use xstats.Xstat.Life.Laws.{IsAlive}
use xstats.Xstat.Life.Delivers.{new_node-IsAlive, IsTyped, node_life-AreWords}
use xstats.Xstat.Tests.{plain, exact_scale, hw, make_event, site, site-IsServed, registers_small}

-- A node that was just registered.
abbrev s : State
s = record { node = new_node site 1; groups = ipmi_sensors; phase = idle }

s-IsAlive : IsAlive s
s-IsAlive = new_node-IsAlive s site 1 refl refl site-IsServed ipmi_sensors-AreSensors

-- A read before the first start, a thread that samples, one that is stopped before it runs, and one
-- that is left sampling.
abbrev acts : List Action
acts =
    read
    ∷ start 7
    ∷ begin (λ i. true) make_event
    ∷ roll hw
    ∷ elsewhere hw
    ∷ receive group_b (some 2) (0 ∷ 77 ∷ 192 ∷ [])
    ∷ roll hw
    ∷ read
    ∷ stop
    ∷ start 8
    ∷ stop
    ∷ read
    ∷ start 9
    ∷ begin (λ i. true) make_event
    ∷ reset 2
    ∷ roll hw
    ∷ []

acts-IsTyped : All IsTyped acts
acts-IsTyped = (
  tt,
  (
    tt,
    (
      λ i. refl,
      (
        registers_small,
        (
          tt,
          (
            (omega arith, (omega arith, (omega arith, tt))),
            (
              registers_small,
              (tt, (tt, (tt, (tt, (tt, (tt, (λ i. refl, (tt, (registers_small, tt))))))))),
            ),
          ),
        ),
      ),
    ),
  ),
)

node_life-AreWords_example :
    (o : Outcome) × (s' : State) × (delivered : List (List ℕ)) × (run exact_scale plain acts s
      ≡ ok (o, s'))
    × (o.text ≡ concat (map (line_text s.groups) delivered))
    × All AreWords delivered
    × All AreWords (samples s'.node)
unfolding new_node
node_life-AreWords_example = node_life-AreWords plain exact_scale acts s acts-IsTyped s-IsAlive tt
