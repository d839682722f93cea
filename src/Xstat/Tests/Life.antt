-- ===== src/Xstat/Tests/Life.antt =====
-- Tests of the module's own state, from loading to unloading.
use xstats.Base.{
  ℕ, ◌≤◌, ◌≡◌, ◌↔◌, refl, List, [], ◌∷◌, inl, inr, Option, some, none, false, arith, ◌+◌,
}
use xstats.Base.Text.{Text, codes}
use xstats.Kernel.{ok, fault}
use xstats.Xstat.Ipmi.Sensors.{ipmi_sensors}
use xstats.Xstat.Control.{Module, start_stat, stop_stat}
use xstats.Xstat.Control.Threads.{threads, stop_stat-start_stat, stop_stat-fault}
use xstats.Xstat.Control.Period.{IsControlled, Write, ctrl, period, stores, stores-IsControlled}
use xstats.Xstat.Registry.{register_xstat_node}
use xstats.Xstat.Registry.Names.{register_xstat_node-names}
use xstats.Xstat.Tests.{make_thread, no_thread, idle_node, site}

-- Three places, one node, off.
abbrev m : Module
m = record {
  ctrl_on = false;
  ctrl_period = 1000;
  nodes = none ∷ some idle_node ∷ none ∷ [];
  groups = ipmi_sensors;
}

m-IsControlled : IsControlled m
m-IsControlled = record { period_range = omega arith; tasks = inr (refl, (refl, tt)) }

stop_stat-start_stat_example :
    stop_stat (start_stat make_thread m).0 ≡ ok (m, threads (start_stat make_thread m).1)
stop_stat-start_stat_example = stop_stat-start_stat make_thread m refl (refl, tt) ((101, refl), tt)

stop_stat-fault_example : stop_stat (start_stat no_thread m).0 ≡ fault
stop_stat-fault_example = stop_stat-fault no_thread m refl (inl refl)

abbrev parse : Text → Option ℕ
parse buf = some 20

abbrev writes : List Write
writes =
    ctrl make_thread (codes "on\n") 3 ∷ period (codes "20") ∷ ctrl make_thread (codes "off") 3 ∷ []

stores_example : (m' : Module) × (stores parse writes m ≡ ok m') × IsControlled m'
stores_example =
    stores-IsControlled parse writes m (λ i. (i + 100, refl), (tt, (λ i. (i + 100, refl), tt)))
      m-IsControlled

register_xstat_node-names_example : (register_xstat_node site 100 m ≡ fault) ↔ (100 ≤ 100)
register_xstat_node-names_example = register_xstat_node-names site 100 m refl refl
