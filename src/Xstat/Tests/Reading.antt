-- ===== src/Xstat/Tests/Reading.antt =====
-- Tests of the read side of a node.
use xstats.Base.{
  ℕ, ◌<◌, ◌≤◌, ◌/◌, ◌≡◌, refl, List, [], ◌∷◌, ◌++◌, ◌⊎◌, map, take, drop, concat, replicate, arith,
  length, All,
}
use xstats.Base.Text.{Text}
use xstats.Kernel.{ok, fault}
use xstats.Ring.Refine.{IsValid}
use xstats.Xstat.Ipmi.Sensors.{ipmi_sensors, ipmi_sensors-AreSensors}
use xstats.Xstat.Node.{Node, ncnt, nbuf}
use xstats.Xstat.Node.Roll.{samples}
use xstats.Page.{page_size}
use xstats.Xstat.Show.{show_stat_attr, show_last_attr}
use xstats.Xstat.Show.Line.{line_text}
use xstats.Xstat.Show.Stat.{show_stat_attr_lem, show_stat_times, show_stat_attr-empties}
use xstats.Xstat.Show.Last.{show_last_attr_lem, show_last_attr-fault}
use xstats.Xstat.Tests.{plain, ring-IsValid, idle_node, node}

abbrev row : List ℕ
row = replicate 16 5

show_stat_attr_example :
    (text : Text) × (node' : Node) × (k : ℕ) × (show_stat_attr plain ipmi_sensors node
      ≡ ok (text, node'))
    × (text ≡ concat (map (line_text ipmi_sensors) (take k (samples node))))
    × (samples node' ≡ drop k (samples node))
    × IsValid ncnt nbuf node'.ring
    × ((samples node' ≡ []) ⊎ (page_size / 2 ≤ length text))
    × (length text < page_size)
show_stat_attr_example =
    show_stat_attr_lem plain ipmi_sensors ipmi_sensors-AreSensors node (refl, (refl, (refl, tt)))
      ring-IsValid

show_last_attr_example :
    (older : List (List ℕ)) × (last : List ℕ) × (samples node ≡ older ++ (last ∷ []))
    × (show_last_attr plain ipmi_sensors node ≡ ok (line_text ipmi_sensors last))
show_last_attr_example =
    show_last_attr_lem plain ipmi_sensors node ipmi_sensors-AreSensors (refl, (refl, (refl, tt)))
      ring-IsValid (omega arith)

show_last_attr-fault_example : show_last_attr plain ipmi_sensors idle_node ≡ fault
show_last_attr-fault_example = show_last_attr-fault plain ipmi_sensors idle_node 0 refl

show_stat_attr-empties_example :
    (texts : List Text) × (node' : Node) × (show_stat_times plain ipmi_sensors 2 node
      ≡ ok (texts, node'))
    × (samples node' ≡ [])
    × (concat texts ≡ concat (map (line_text ipmi_sensors) (samples node)))
    × All (λ text. length text < page_size) texts
show_stat_attr-empties_example =
    show_stat_attr-empties plain ipmi_sensors ipmi_sensors-AreSensors node 2
      (refl, (refl, (refl, tt))) ring-IsValid (omega arith)
